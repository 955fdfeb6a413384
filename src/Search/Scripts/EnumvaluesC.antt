-- ===== src/Search/Scripts/EnumvaluesC.antt =====
-- docs/search/enumvalues_a.js to docs/search/enumvalues_e.js: entries of the search.
use async_fw.Base.{true, List, [], ◌∷◌}
use async_fw.Search.Results.{Found}
use async_fw.Search.Scripts.Entry.{hit, found}

unfoldable pub enumvalues_a : List Found
enumvalues_a =
    found "read_0" "Read" (
      hit
        "../classAsyncFw_1_1AbstractSocket.html#a940a10b5f063e970cb7e46a61cab2415ac89172e9f1ba9d2ab4230e50bc844739"
        true "AsyncFw::AbstractSocket"
      ∷ [])
    ∷ found "refused_1" "Refused" (
        hit
          "../classAsyncFw_1_1AbstractSocket.html#a940a10b5f063e970cb7e46a61cab2415a39ae7fa79f41ed464e63aee7b5918080"
          true "AsyncFw::AbstractSocket"
        ∷ [])
    ∷ found "running_2" "Running" (
        hit
          "../classAsyncFw_1_1SystemProcess.html#afad39352d4d8376d1304bc340a0cf32fad676c3df6d4070608540d7160f773e1b"
          true "AsyncFw::SystemProcess"
        ∷ [])
    ∷ []

unfoldable pub enumvalues_b : List Found
enumvalues_b =
    found "sync_0" "Sync" (
      hit
        "../classAsyncFw_1_1AbstractFunctionConnector_1_1Connection.html#a860b83046c90e62d768e0acde74626c6a5c9e5da34d6f0f6d7d4f11cdbbac4f97"
        true "AsyncFw::AbstractFunctionConnector::Connection::Sync"
      ∷ hit
          "../classAsyncFw_1_1AbstractFunctionConnector.html#ab248bd16cbfcac609f58d401abec4368aa337dbe9151a9446d65ecebf21f57cc7"
          true "AsyncFw::AbstractFunctionConnector::Sync"
      ∷ [])
    ∷ found "synconly_1" "SyncOnly" (
        hit
          "../classAsyncFw_1_1AbstractFunctionConnector.html#ab248bd16cbfcac609f58d401abec4368a067289a8bc60cc7b0be0e021db9ce81d"
          true "AsyncFw::AbstractFunctionConnector"
        ∷ [])
    ∷ []

unfoldable pub enumvalues_c : List Found
enumvalues_c =
    found "timevalidity_0" "TimeValidity" (
      hit
        "../classAsyncFw_1_1TlsContext.html#a34b8c61895eaf10b54060df0feb54de8a09006eb216323640dc70de9a126e31f5"
        true "AsyncFw::TlsContext"
      ∷ [])
    ∷ found "trace_1" "Trace" (
        hit
          "../classAsyncFw_1_1LogStream.html#afa2f6c5311ced6b973d39d6e5ced5731ab9e4aeca51d007c66abb1ad6b93c3c37"
          true "AsyncFw::LogStream"
        ∷ [])
    ∷ []

unfoldable pub enumvalues_d : List Found
enumvalues_d =
    found "unconnected_0" "Unconnected" (
      hit
        "../classAsyncFw_1_1AbstractSocket.html#a6fc3dae51b6b38d67f1c3861dcbb23bda65e37b7a6b547c0da9a63972db5dfd49"
        true "AsyncFw::AbstractSocket"
      ∷ [])
    ∷ found "unicast_1" "Unicast" (
        hit
          "../classAsyncFw_1_1MulticastDns.html#a4db656bae572e9b28e1ebef4b6f05465a1951dca893badeb1f1992fa9805ebb91"
          true "AsyncFw::MulticastDns"
        ∷ [])
    ∷ []

unfoldable pub enumvalues_e : List Found
enumvalues_e =
    found "warning_0" "Warning" (
      hit
        "../classAsyncFw_1_1LogStream.html#afa2f6c5311ced6b973d39d6e5ced5731a96aad685f21a4a927c6c3a74274efd5a"
        true "AsyncFw::LogStream"
      ∷ [])
    ∷ found "write_1" "Write" (
        hit
          "../classAsyncFw_1_1AbstractSocket.html#a940a10b5f063e970cb7e46a61cab2415a6084632d3ad9ef3f0bce55a0751c817b"
          true "AsyncFw::AbstractSocket"
        ∷ [])
    ∷ []
