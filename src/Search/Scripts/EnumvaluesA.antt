-- ===== src/Search/Scripts/EnumvaluesA.antt =====
-- docs/search/enumvalues_0.js to docs/search/enumvalues_2.js: entries of the search.
use async_fw.Base.{true, List, [], ◌∷◌}
use async_fw.Search.Results.{Found}
use async_fw.Search.Scripts.Entry.{hit, found}

unfoldable pub enumvalues_0 : List Found
enumvalues_0 =
    found "activate_0" "Activate" (
      hit
        "../classAsyncFw_1_1AbstractSocket.html#a940a10b5f063e970cb7e46a61cab2415a650fdfa57cdb708fed90e3a8c3401d8f"
        true "AsyncFw::AbstractSocket"
      ∷ [])
    ∷ found "active_1" "Active" (
        hit
          "../classAsyncFw_1_1AbstractSocket.html#a6fc3dae51b6b38d67f1c3861dcbb23bdabc8b14ad3e5c48f1e2be50e1f70fc237"
          true "AsyncFw::AbstractSocket"
        ∷ [])
    ∷ found "alert_2" "Alert" (
        hit
          "../classAsyncFw_1_1LogStream.html#afa2f6c5311ced6b973d39d6e5ced5731a8e7cdb29641eddbcac3012fe6eb3cd3d"
          true "AsyncFw::LogStream"
        ∷ [])
    ∷ found "application_3" "Application" (
        hit
          "../classAsyncFw_1_1AbstractSocket.html#a8720ba9755d46ce21efa6056e7cf5034ae5cae7a164a407735575fa1f4760c7de"
          true "AsyncFw::AbstractSocket"
        ∷ [])
    ∷ found "auto_4" "Auto" (
        hit
          "../classAsyncFw_1_1AbstractFunctionConnector_1_1Connection.html#a860b83046c90e62d768e0acde74626c6af3aceaa2c172acce94b8685ce05697b7"
          true "AsyncFw::AbstractFunctionConnector::Connection::Auto"
        ∷ hit
            "../classAsyncFw_1_1AbstractFunctionConnector.html#ab248bd16cbfcac609f58d401abec4368a480f988213a099791809a06ce8e412ff"
            true "AsyncFw::AbstractFunctionConnector::Auto"
        ∷ [])
    ∷ []

unfoldable pub enumvalues_1 : List Found
enumvalues_1 =
    found "closed_0" "Closed" (
      hit
        "../classAsyncFw_1_1AbstractSocket.html#a940a10b5f063e970cb7e46a61cab2415a18bbf4b02f65dbe6f74715ae7b4682a6"
        true "AsyncFw::AbstractSocket"
      ∷ [])
    ∷ found "closing_1" "Closing" (
        hit
          "../classAsyncFw_1_1AbstractSocket.html#a6fc3dae51b6b38d67f1c3861dcbb23bda516ec5c0c571fe5c0d60881eddc2c22e"
          true "AsyncFw::AbstractSocket"
        ∷ [])
    ∷ found "connected_2" "Connected" (
        hit
          "../classAsyncFw_1_1AbstractSocket.html#a6fc3dae51b6b38d67f1c3861dcbb23bdaccd0feb91061e2ddcac7f6b90bf9efa5"
          true "AsyncFw::AbstractSocket"
        ∷ [])
    ∷ found "connecting_3" "Connecting" (
        hit
          "../classAsyncFw_1_1AbstractSocket.html#a6fc3dae51b6b38d67f1c3861dcbb23bdabba7ae24638871f8e94de4b4af31c37f"
          true "AsyncFw::AbstractSocket"
        ∷ [])
    ∷ found "crashed_4" "Crashed" (
        hit
          "../classAsyncFw_1_1SystemProcess.html#afad39352d4d8376d1304bc340a0cf32fa71589da9ec6d6bf72db63b0706ecfb60"
          true "AsyncFw::SystemProcess"
        ∷ [])
    ∷ []

unfoldable pub enumvalues_2 : List Found
enumvalues_2 =
    found "debug_0" "Debug" (
      hit
        "../classAsyncFw_1_1LogStream.html#afa2f6c5311ced6b973d39d6e5ced5731a39dfd70cbe9922423fa0db22b9dddfa2"
        true "AsyncFw::LogStream"
      ∷ [])
    ∷ found "default_1" "Default" (
        hit
          "../classAsyncFw_1_1AbstractFunctionConnector_1_1Connection.html#a860b83046c90e62d768e0acde74626c6aa6ac69ca7e3f98af70b7ed067e4f9bdc"
          true "AsyncFw::AbstractFunctionConnector::Connection"
        ∷ [])
    ∷ found "destroy_2" "Destroy" (
        hit
          "../classAsyncFw_1_1AbstractSocket.html#a6fc3dae51b6b38d67f1c3861dcbb23bda1bc468bc996ac9ce17018c3320ac5516"
          true "AsyncFw::AbstractSocket"
        ∷ [])
    ∷ found "direct_3" "Direct" (
        hit
          "../classAsyncFw_1_1AbstractFunctionConnector_1_1Connection.html#a860b83046c90e62d768e0acde74626c6a64d3a4cb989751b7834f3fa0cb7a0021"
          true "AsyncFw::AbstractFunctionConnector::Connection::Direct"
        ∷ hit
            "../classAsyncFw_1_1AbstractFunctionConnector.html#ab248bd16cbfcac609f58d401abec4368aff480e11cf0224228dd92a034987e47a"
            true "AsyncFw::AbstractFunctionConnector::Direct"
        ∷ [])
    ∷ found "directonly_4" "DirectOnly" (
        hit
          "../classAsyncFw_1_1AbstractFunctionConnector.html#ab248bd16cbfcac609f58d401abec4368a3b1695a20470728ef441d8ccdd549b78"
          true "AsyncFw::AbstractFunctionConnector"
        ∷ [])
    ∷ []
