-- ===== src/Search/Scripts/VariablesB.antt =====
-- docs/search/variables_9.js to docs/search/variables_e.js: entries of the search.
use async_fw.Base.{true, List, [], ◌∷◌}
use async_fw.Search.Results.{Found}
use async_fw.Search.Scripts.Entry.{hit, found}

unfoldable pub variables_9 : List Found
variables_9 =
    found "pool_0" "pool" (
      hit "../classAsyncFw_1_1DataArrayAbstractTcp_1_1Thread.html#a658eb13fe8039a9a74f16e4dab9a1b20"
        true "AsyncFw::DataArrayAbstractTcp::Thread::pool"
      ∷ hit "../classAsyncFw_1_1AbstractThreadPool_1_1Thread.html#a3f4c0689143ffada4c4569f43f93c5a9"
          true "AsyncFw::AbstractThreadPool::Thread::pool"
      ∷ [])
    ∷ found "port_1" "port" (
        hit "../structAsyncFw_1_1MulticastDns_1_1Host.html#a52a728b597d34fc89757944f97a002b8" true
          "AsyncFw::MulticastDns::Host"
        ∷ [])
    ∷ []

unfoldable pub variables_a : List Found
variables_a =
    found "readtimeout_0" "readTimeout" (
      hit "../classAsyncFw_1_1DataArrayAbstractTcp.html#ae58df4b570a50455f5f295513d7bdb52" true
        "AsyncFw::DataArrayAbstractTcp"
      ∷ [])
    ∷ found "received_1" "received" (
        hit "../classAsyncFw_1_1DataArrayAbstractTcp.html#aa14fbf40d42b2d193009793538cf4cfc" true
          "AsyncFw::DataArrayAbstractTcp::received"
        ∷ hit "../classAsyncFw_1_1DataArraySocket.html#ab0c23db25054ae85a92b6fb57f7da125" true
            "AsyncFw::DataArraySocket::received"
        ∷ [])
    ∷ []

unfoldable pub variables_b : List Found
variables_b =
    found "socketreadbuffersize_0" "socketReadBufferSize" (
      hit "../classAsyncFw_1_1DataArrayAbstractTcp.html#ab52e14dcbac67ced6f4f009cb2d44396" true
        "AsyncFw::DataArrayAbstractTcp"
      ∷ [])
    ∷ found "sockets_5f_1" "sockets_" (
        hit "../classAsyncFw_1_1Thread.html#a92780087225a95405529ddabbce2ae07" true
          "AsyncFw::Thread"
        ∷ [])
    ∷ found "started_2" "started" (
        hit "../classAsyncFw_1_1Thread.html#abac958eae1def0e3c0e32a7ebebc45eb" true
          "AsyncFw::Thread"
        ∷ [])
    ∷ found "state_5f_3" "state_" (
        hit "../classAsyncFw_1_1AbstractSocket.html#aa4b74ce0259d4424ef41b2d10290351c" true
          "AsyncFw::AbstractSocket"
        ∷ [])
    ∷ found "statechanged_4" "stateChanged" (
        hit "../classAsyncFw_1_1DataArraySocket.html#a02dbcce97207d018e0ab0ab3ce78b7be" true
          "AsyncFw::DataArraySocket::stateChanged"
        ∷ hit "../classAsyncFw_1_1SystemProcess.html#a15a6e0feb095b9ad2ea2bdfb7014ca2c" true
            "AsyncFw::SystemProcess::stateChanged"
        ∷ [])
    ∷ found "string_5" "string" (
        hit "../structAsyncFw_1_1LogStream_1_1Message.html#a7d55dbc7e3fd3c5b106977df3ca2bbbb" true
          "AsyncFw::LogStream::Message"
        ∷ [])
    ∷ []

unfoldable pub variables_c : List Found
variables_c =
    found "tcpserver_0" "tcpServer" (
      hit "../classAsyncFw_1_1RrdServer.html#a1d88715a189ea36663ca192b64886700" true
        "AsyncFw::RrdServer"
      ∷ [])
    ∷ found "thread_5f_1" "thread_" (
        hit "../classAsyncFw_1_1AbstractSocket.html#a49a607ef9c268469124164ab86971787" true
          "AsyncFw::AbstractSocket"
        ∷ [])
    ∷ found "time_2" "time" (
        hit "../structAsyncFw_1_1LogStream_1_1Message.html#afbf65018f5c11d8d8204a0b47cee4207" true
          "AsyncFw::LogStream::Message"
        ∷ [])
    ∷ found "timeout_3" "timeout" (
        hit "../classAsyncFw_1_1Timer.html#acf307d575a38d2b3bb852202d0126fcd" true "AsyncFw::Timer"
        ∷ [])
    ∷ found "type_4" "type" (
        hit "../structAsyncFw_1_1LogStream_1_1Message.html#a4b2b2b0ff46ffb2a1f949f4953b34895" true
          "AsyncFw::LogStream::Message"
        ∷ [])
    ∷ []

unfoldable pub variables_d : List Found
variables_d =
    found "updated_0" "updated"
      (hit "../classAsyncFw_1_1Rrd.html#a7ff19310fbae9fbf6b6a2b26bceb7cec" true "AsyncFw::Rrd" ∷ [])
    ∷ []

unfoldable pub variables_e : List Found
variables_e =
    found "waitforencryptiontimeout_0" "waitForEncryptionTimeout" (
      hit "../classAsyncFw_1_1DataArrayAbstractTcp.html#ab4e8f2fc581da74be9e9f2a0845749d3" true
        "AsyncFw::DataArrayAbstractTcp"
      ∷ [])
    ∷ found "waitkeepaliveanswertimeout_1" "waitKeepAliveAnswerTimeout" (
        hit "../classAsyncFw_1_1DataArrayAbstractTcp.html#a922b46fe2c91ea4eb92f17da008422df" true
          "AsyncFw::DataArrayAbstractTcp"
        ∷ [])
    ∷ found "websocketreceived_2" "webSocketReceived" (
        hit "../classAsyncFw_1_1HttpServer.html#abc4ca40dd30bf85e0328a65360e2038f" true
          "AsyncFw::HttpServer"
        ∷ [])
    ∷ []
