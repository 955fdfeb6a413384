-- ===== src/Search/Scripts/EnumvaluesB.antt =====
-- docs/search/enumvalues_3.js to docs/search/enumvalues_9.js: entries of the search.
use async_fw.Base.{true, List, [], ◌∷◌}
use async_fw.Search.Results.{Found}
use async_fw.Search.Scripts.Entry.{hit, found}

unfoldable pub enumvalues_3 : List Found
enumvalues_3 =
    found "emergency_0" "Emergency" (
      hit
        "../classAsyncFw_1_1LogStream.html#afa2f6c5311ced6b973d39d6e5ced5731a66e8e44e1adfebd567c25c6611a5e418"
        true "AsyncFw::LogStream"
      ∷ [])
    ∷ found "error_1" "Error" (
        hit
          "../classAsyncFw_1_1LogStream.html#afa2f6c5311ced6b973d39d6e5ced5731a735a344d42befe22f3f60ed4f1125351"
          true "AsyncFw::LogStream::Error"
        ∷ hit
            "../classAsyncFw_1_1SystemProcess.html#afad39352d4d8376d1304bc340a0cf32fa49cb88a476197da70de9c7ea73b5d089"
            true "AsyncFw::SystemProcess::Error"
        ∷ [])
    ∷ found "errorexchangeconnectionclose_2" "ErrorExchangeConnectionClose" (
        hit
          "../classAsyncFw_1_1DataArrayTcpClient.html#ac9d422208fb30613d8eb7781f9241f7ba9f0e5d9d512fd37f516031df3e7e2560"
          true "AsyncFw::DataArrayTcpClient"
        ∷ [])
    ∷ found "errorexchangenotactive_3" "ErrorExchangeNotActive" (
        hit
          "../classAsyncFw_1_1DataArrayTcpClient.html#ac9d422208fb30613d8eb7781f9241f7ba312ca3075c322f911a81152fda9b91e4"
          true "AsyncFw::DataArrayTcpClient"
        ∷ [])
    ∷ found "errorexchangethread_4" "ErrorExchangeThread" (
        hit
          "../classAsyncFw_1_1DataArrayTcpClient.html#ac9d422208fb30613d8eb7781f9241f7ba2ce8e07b6e0c64ad132c4252ab4d5d28"
          true "AsyncFw::DataArrayTcpClient"
        ∷ [])
    ∷ found "errorexchangetimeout_5" "ErrorExchangeTimeout" (
        hit
          "../classAsyncFw_1_1DataArrayTcpClient.html#ac9d422208fb30613d8eb7781f9241f7bad6409e4e73f5751be1f7765c9ca7b84e"
          true "AsyncFw::DataArrayTcpClient"
        ∷ [])
    ∷ found "errorexchangetransmit_6" "ErrorExchangeTransmit" (
        hit
          "../classAsyncFw_1_1DataArrayTcpClient.html#ac9d422208fb30613d8eb7781f9241f7baf4fd635887a0ada6dde08967253fa2d1"
          true "AsyncFw::DataArrayTcpClient"
        ∷ [])
    ∷ found "errortransmit_7" "ErrorTransmit" (
        hit
          "../classAsyncFw_1_1DataArrayAbstractTcp.html#a0a77d6d5e166af850a5dfb588ccbc8fbab13d6924f9f052b5cd28a86872b6bf86"
          true "AsyncFw::DataArrayAbstractTcp"
        ∷ [])
    ∷ found "errortransmitinvoke_8" "ErrorTransmitInvoke" (
        hit
          "../classAsyncFw_1_1DataArrayAbstractTcp.html#a0a77d6d5e166af850a5dfb588ccbc8fba38dabc9c658f0b2bebeecf100ada6b0d"
          true "AsyncFw::DataArrayAbstractTcp"
        ∷ [])
    ∷ found "errortransmitnotactive_9" "ErrorTransmitNotActive" (
        hit
          "../classAsyncFw_1_1DataArrayAbstractTcp.html#a0a77d6d5e166af850a5dfb588ccbc8fbacdf8f0246690ec54521eb89db2e0676f"
          true "AsyncFw::DataArrayAbstractTcp"
        ∷ [])
    ∷ []

unfoldable pub enumvalues_4 : List Found
enumvalues_4 =
    found "finished_0" "Finished" (
      hit
        "../classAsyncFw_1_1SystemProcess.html#afad39352d4d8376d1304bc340a0cf32fafbad76ce6453263110ca967474dfa1a7"
        true "AsyncFw::SystemProcess"
      ∷ [])
    ∷ []

unfoldable pub enumvalues_5 : List Found
enumvalues_5 =
    found "info_0" "Info" (
      hit
        "../classAsyncFw_1_1LogStream.html#afa2f6c5311ced6b973d39d6e5ced5731a55700379cc50408c01860c3a700d20a0"
        true "AsyncFw::LogStream"
      ∷ [])
    ∷ []

unfoldable pub enumvalues_6 : List Found
enumvalues_6 =
    found "listening_0" "Listening" (
      hit
        "../classAsyncFw_1_1AbstractSocket.html#a6fc3dae51b6b38d67f1c3861dcbb23bda5b13d3f73cf426c72bbd8598ede9442d"
        true "AsyncFw::AbstractSocket"
      ∷ [])
    ∷ []

unfoldable pub enumvalues_7 : List Found
enumvalues_7 =
    found "multicast_0" "Multicast" (
      hit
        "../classAsyncFw_1_1MulticastDns.html#a4db656bae572e9b28e1ebef4b6f05465a846f46532ca6212d12ee0d1024f6de98"
        true "AsyncFw::MulticastDns"
      ∷ [])
    ∷ []

unfoldable pub enumvalues_8 : List Found
enumvalues_8 =
    found "network_0" "Network" (
      hit
        "../classAsyncFw_1_1AbstractSocket.html#a8720ba9755d46ce21efa6056e7cf5034a279f21d56f24884fee5325f2ecd8326e"
        true "AsyncFw::AbstractSocket"
      ∷ [])
    ∷ found "none_1" "None" (
        hit
          "../classAsyncFw_1_1AbstractSocket.html#a940a10b5f063e970cb7e46a61cab2415a906f37e70a41b6af3e5be5ca47662a45"
          true "AsyncFw::AbstractSocket::None"
        ∷ hit
            "../classAsyncFw_1_1SystemProcess.html#afad39352d4d8376d1304bc340a0cf32fae6056f73a5ee0f2e5e9a810511d30121"
            true "AsyncFw::SystemProcess::None"
        ∷ [])
    ∷ found "notice_2" "Notice" (
        hit
          "../classAsyncFw_1_1LogStream.html#afa2f6c5311ced6b973d39d6e5ced5731ae60e1a6347736018009842563cd57231"
          true "AsyncFw::LogStream"
        ∷ [])
    ∷ []

unfoldable pub enumvalues_9 : List Found
enumvalues_9 =
    found "queued_0" "Queued" (
      hit
        "../classAsyncFw_1_1AbstractFunctionConnector_1_1Connection.html#a860b83046c90e62d768e0acde74626c6a6c561775a673adbed77c380ee036a01f"
        true "AsyncFw::AbstractFunctionConnector::Connection::Queued"
      ∷ hit
          "../classAsyncFw_1_1AbstractFunctionConnector.html#ab248bd16cbfcac609f58d401abec4368a5d08e36148e4f87ea06266376ac65da9"
          true "AsyncFw::AbstractFunctionConnector::Queued"
      ∷ [])
    ∷ found "queuedonly_1" "QueuedOnly" (
        hit
          "../classAsyncFw_1_1AbstractFunctionConnector.html#ab248bd16cbfcac609f58d401abec4368af29d50765264f3f426d354883428c288"
          true "AsyncFw::AbstractFunctionConnector"
        ∷ [])
    ∷ []
