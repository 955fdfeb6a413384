-- ===== src/Search/Scripts/Groups.antt =====
-- docs/search/groups_0.js to docs/search/groups_2.js: entries of the search.
use async_fw.Base.{true, List, [], ◌∷◌}
use async_fw.Search.Results.{Found}
use async_fw.Search.Scripts.Entry.{hit, found}

unfoldable pub groups_0 : List Found
groups_0 =
    found "api_20helpers_0" "Coroutine API Helpers"
      (hit "../group__coroutine__api.html" true "" ∷ [])
    ∷ []

unfoldable pub groups_1 : List Found
groups_1 =
    found "coroutine_20api_20helpers_0" "Coroutine API Helpers"
      (hit "../group__coroutine__api.html" true "" ∷ [])
    ∷ []

unfoldable pub groups_2 : List Found
groups_2 =
    found "helpers_0" "Coroutine API Helpers" (hit "../group__coroutine__api.html" true "" ∷ [])
    ∷ []
