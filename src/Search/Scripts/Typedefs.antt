-- ===== src/Search/Scripts/Typedefs.antt =====
-- docs/search/typedefs_0.js to docs/search/typedefs_2.js: entries of the search.
use async_fw.Base.{true, List, [], ◌∷◌}
use async_fw.Search.Results.{Found}
use async_fw.Search.Scripts.Entry.{hit, found}

unfoldable pub typedefs_0 : List Found
typedefs_0 =
    found "abstractpolltask_0" "AbstractPollTask" (
      hit "../classAsyncFw_1_1AbstractThread.html#ad3dad9f7e0852a4c24c2bae48c701802" true
        "AsyncFw::AbstractThread"
      ∷ [])
    ∷ found "abstracttask_1" "AbstractTask" (
        hit "../classAsyncFw_1_1AbstractThread.html#af2a69c1875d42b8daa41a82f000e4c2a" true
          "AsyncFw::AbstractThread"
        ∷ [])
    ∷ []

unfoldable pub typedefs_1 : List Found
typedefs_1 =
    found "lockguard_0" "LockGuard" (
      hit "../classAsyncFw_1_1AbstractThread.html#a4e97803ef650d36ba80ef1471c4b643c" true
        "AsyncFw::AbstractThread"
      ∷ [])
    ∷ []

unfoldable pub typedefs_2 : List Found
typedefs_2 =
    found "protected_0" "Protected" (
      hit "../classAsyncFw_1_1FunctionConnector.html#a9fb8f282c88da90aeaab52a3c174d82b" true
        "AsyncFw::FunctionConnector"
      ∷ [])
    ∷ []
