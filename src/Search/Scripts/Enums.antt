-- ===== src/Search/Scripts/Enums.antt =====
-- docs/search/enums_0.js to docs/search/enums_9.js: entries of the search.
use async_fw.Base.{true, List, [], ◌∷◌}
use async_fw.Search.Results.{Found}
use async_fw.Search.Scripts.Entry.{hit, found}

unfoldable pub enums_0 : List Found
enums_0 =
    found "color_0" "Color" (
      hit "../classAsyncFw_1_1LogStream.html#a17519bc7bb8b2108963175a62d990931" true
        "AsyncFw::LogStream"
      ∷ [])
    ∷ found "connectionpolicy_1" "ConnectionPolicy" (
        hit "../classAsyncFw_1_1AbstractFunctionConnector.html#ab248bd16cbfcac609f58d401abec4368"
          true "AsyncFw::AbstractFunctionConnector"
        ∷ [])
    ∷ []

unfoldable pub enums_1 : List Found
enums_1 =
    found "error_0" "Error" (
      hit "../classAsyncFw_1_1AbstractSocket.html#a940a10b5f063e970cb7e46a61cab2415" true
        "AsyncFw::AbstractSocket"
      ∷ [])
    ∷ []

unfoldable pub enums_2 : List Found
enums_2 =
    found "ignoreerrors_0" "IgnoreErrors" (
      hit "../classAsyncFw_1_1TlsContext.html#a34b8c61895eaf10b54060df0feb54de8" true
        "AsyncFw::TlsContext"
      ∷ [])
    ∷ []

unfoldable pub enums_3 : List Found
enums_3 =
    found "messagetype_0" "MessageType" (
      hit "../classAsyncFw_1_1LogStream.html#afa2f6c5311ced6b973d39d6e5ced5731" true
        "AsyncFw::LogStream"
      ∷ [])
    ∷ found "method_1" "Method" (
        hit "../classAsyncFw_1_1HttpServer_1_1Request.html#a41d6c54e0fbca4f6d6bc65abb6a97827" true
          "AsyncFw::HttpServer::Request"
        ∷ [])
    ∷ []

unfoldable pub enums_4 : List Found
enums_4 =
    found "outputbuffermode_0" "OutputBufferMode" (
      hit "../classAsyncFw_1_1AbstractSocket.html#a8720ba9755d46ce21efa6056e7cf5034" true
        "AsyncFw::AbstractSocket"
      ∷ [])
    ∷ []

unfoldable pub enums_5 : List Found
enums_5 =
    found "pollevents_0" "PollEvents" (
      hit "../classAsyncFw_1_1AbstractThread.html#a654efa5f41b38ff679e48211e8904a59" true
        "AsyncFw::AbstractThread"
      ∷ [])
    ∷ []

unfoldable pub enums_6 : List Found
enums_6 =
    found "queriermode_0" "QuerierMode" (
      hit "../classAsyncFw_1_1MulticastDns.html#a4db656bae572e9b28e1ebef4b6f05465" true
        "AsyncFw::MulticastDns"
      ∷ [])
    ∷ []

unfoldable pub enums_7 : List Found
enums_7 =
    found "result_0" "Result" (
      hit "../classAsyncFw_1_1DataArrayAbstractTcp.html#a0a77d6d5e166af850a5dfb588ccbc8fb" true
        "AsyncFw::DataArrayAbstractTcp::Result"
      ∷ hit "../classAsyncFw_1_1DataArrayTcpClient.html#ac9d422208fb30613d8eb7781f9241f7b" true
          "AsyncFw::DataArrayTcpClient::Result"
      ∷ [])
    ∷ []

unfoldable pub enums_8 : List Found
enums_8 =
    found "state_0" "State" (
      hit "../classAsyncFw_1_1AbstractSocket.html#a6fc3dae51b6b38d67f1c3861dcbb23bd" true
        "AsyncFw::AbstractSocket::State"
      ∷ hit "../classAsyncFw_1_1SystemProcess.html#afad39352d4d8376d1304bc340a0cf32f" true
          "AsyncFw::SystemProcess::State"
      ∷ [])
    ∷ found "statuscode_1" "StatusCode" (
        hit "../classAsyncFw_1_1HttpServer_1_1Response.html#ade630649387805688da86e8d0adaeb67" true
          "AsyncFw::HttpServer::Response"
        ∷ [])
    ∷ []

unfoldable pub enums_9 : List Found
enums_9 =
    found "type_0" "Type" (
      hit
        "../classAsyncFw_1_1AbstractFunctionConnector_1_1Connection.html#a860b83046c90e62d768e0acde74626c6"
        true "AsyncFw::AbstractFunctionConnector::Connection"
      ∷ [])
    ∷ []
