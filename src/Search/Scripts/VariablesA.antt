-- ===== src/Search/Scripts/VariablesA.antt =====
-- docs/search/variables_0.js to docs/search/variables_8.js: entries of the search.
use async_fw.Base.{true, List, [], ◌∷◌}
use async_fw.Search.Results.{Found}
use async_fw.Search.Scripts.Entry.{hit, found}

unfoldable pub variables_0 : List Found
variables_0 =
    found "completed_0" "completed" (
      hit "../classAsyncFw_1_1AddressResolver.html#adc88c3beebbade60ab2005599de37051" true
        "AsyncFw::AddressResolver"
      ∷ [])
    ∷ found "connectionstatechanged_1" "connectionStateChanged" (
        hit "../classAsyncFw_1_1DataArrayTcpClient.html#a4ae40b5452d25984450f8e4b22d051f9" true
          "AsyncFw::DataArrayTcpClient"
        ∷ [])
    ∷ []

unfoldable pub variables_1 : List Found
variables_1 =
    found "data_5f_0" "data_" (
      hit "../structAsyncFw_1_1AnyData.html#adc2b97818be013fcf912ca9c8e086fa3" true
        "AsyncFw::AnyData"
      ∷ [])
    ∷ found "destroying_1" "destroying" (
        hit "../classAsyncFw_1_1Thread.html#a2586807d64cba1eb6bd6af4e0cc4919a" true
          "AsyncFw::Thread"
        ∷ [])
    ∷ found "disabledencryptionhosts_5f_2" "disabledEncryptionHosts_" (
        hit "../classAsyncFw_1_1DataArrayAbstractTcp.html#ab09633096b1271c46c3778cdd56d8367" true
          "AsyncFw::DataArrayAbstractTcp"
        ∷ [])
    ∷ []

unfoldable pub variables_2 : List Found
variables_2 =
    found "fd_5f_0" "fd_" (
      hit "../classAsyncFw_1_1AbstractSocket.html#a1380ccdb23066b7084eca638b4232761" true
        "AsyncFw::AbstractSocket"
      ∷ [])
    ∷ found "finished_1" "finished" (
        hit "../classAsyncFw_1_1Thread.html#ad4c31cb77c83c080affcd0cda66debe4" true
          "AsyncFw::Thread"
        ∷ [])
    ∷ []

unfoldable pub variables_3 : List Found
variables_3 =
    found "hostadded_0" "hostAdded" (
      hit "../classAsyncFw_1_1MulticastDns.html#a973574ac5d99e8b3ef2455ded3e90407" true
        "AsyncFw::MulticastDns"
      ∷ [])
    ∷ found "hostchanged_1" "hostChanged" (
        hit "../classAsyncFw_1_1MulticastDns.html#a00da8b82983f3da4d37809761b04df10" true
          "AsyncFw::MulticastDns"
        ∷ [])
    ∷ found "hostremoved_2" "hostRemoved" (
        hit "../classAsyncFw_1_1MulticastDns.html#a97cbf66dbddc356f45aad429e118d287" true
          "AsyncFw::MulticastDns"
        ∷ [])
    ∷ []

unfoldable pub variables_4 : List Found
variables_4 =
    found "incoming_0" "incoming" (
      hit "../classAsyncFw_1_1HttpServer.html#ab0370ceb3eec1973e97a19d65552845b" true
        "AsyncFw::HttpServer::incoming"
      ∷ hit "../classAsyncFw_1_1ListenSocket.html#ad0eef1c8a0e89ee08edc4b40d4cb87e4" true
          "AsyncFw::ListenSocket::incoming"
      ∷ [])
    ∷ found "ipv4_1" "ipv4" (
        hit "../structAsyncFw_1_1MulticastDns_1_1Host.html#a57f0b04e6bb05cc48b7c205c959ec964" true
          "AsyncFw::MulticastDns::Host"
        ∷ [])
    ∷ []

unfoldable pub variables_5 : List Found
variables_5 =
    found "llipv4_0" "llipv4" (
      hit "../structAsyncFw_1_1MulticastDns_1_1Host.html#a153d28d6f64ff9992efef53a035d35c3" true
        "AsyncFw::MulticastDns::Host"
      ∷ [])
    ∷ []

unfoldable pub variables_6 : List Found
variables_6 =
    found "maxreadbuffers_0" "maxReadBuffers" (
      hit "../classAsyncFw_1_1DataArrayAbstractTcp.html#a8bc546c3135e674fcf13e2ee8228fbab" true
        "AsyncFw::DataArrayAbstractTcp"
      ∷ [])
    ∷ found "maxreadsize_1" "maxReadSize" (
        hit "../classAsyncFw_1_1DataArrayAbstractTcp.html#ad1cfe0836b7e9e184d3be17942b0dc4e" true
          "AsyncFw::DataArrayAbstractTcp"
        ∷ [])
    ∷ found "maxsockets_2" "maxSockets" (
        hit "../classAsyncFw_1_1DataArrayAbstractTcp.html#a61d8fea700e5b4eda7434b7b3e55aedb" true
          "AsyncFw::DataArrayAbstractTcp"
        ∷ [])
    ∷ found "maxthreads_3" "maxThreads" (
        hit "../classAsyncFw_1_1DataArrayAbstractTcp.html#a7777e20d24f0dc8136bf916e1ae29440" true
          "AsyncFw::DataArrayAbstractTcp"
        ∷ [])
    ∷ found "maxwritebuffers_4" "maxWriteBuffers" (
        hit "../classAsyncFw_1_1DataArrayAbstractTcp.html#a43b6f6a4f67c9b2c718f48ea999d5727" true
          "AsyncFw::DataArrayAbstractTcp"
        ∷ [])
    ∷ found "maxwritesize_5" "maxWriteSize" (
        hit "../classAsyncFw_1_1DataArrayAbstractTcp.html#a47d8c0d1876602ace92aad264ad62695" true
          "AsyncFw::DataArrayAbstractTcp"
        ∷ [])
    ∷ found "misc_6" "misc" (
        hit "../structAsyncFw_1_1MulticastDns_1_1Host.html#a987597239d178d34f2bea34880e11cd8" true
          "AsyncFw::MulticastDns::Host"
        ∷ [])
    ∷ []

unfoldable pub variables_7 : List Found
variables_7 =
    found "name_0" "name" (
      hit "../structAsyncFw_1_1LogStream_1_1Message.html#af6373a2f7362ff25d5341e5c373e1554" true
        "AsyncFw::LogStream::Message::name"
      ∷ hit "../structAsyncFw_1_1MulticastDns_1_1Host.html#a505099c452dad4bfcaa5e1bdc3f56f82" true
          "AsyncFw::MulticastDns::Host::name"
      ∷ [])
    ∷ found "note_1" "note" (
        hit "../structAsyncFw_1_1LogStream_1_1Message.html#abac2923c4b2c7076a731b88df2420fa5" true
          "AsyncFw::LogStream::Message"
        ∷ [])
    ∷ found "notify_2" "notify" (
        hit "../classAsyncFw_1_1ApplicationNotifier.html#a989eaa483fec75f7d90730d031db0b2a" true
          "AsyncFw::ApplicationNotifier::notify"
        ∷ hit "../classAsyncFw_1_1FileSystemWatcher.html#a4c808b22785dbc3182a9e7fa600b0919" true
            "AsyncFw::FileSystemWatcher::notify"
        ∷ hit "../classAsyncFw_1_1PollNotifier.html#a8bcd61fb697ec4d0d53b942feb5b8026" true
            "AsyncFw::PollNotifier::notify"
        ∷ [])
    ∷ []

unfoldable pub variables_8 : List Found
variables_8 =
    found "output_0" "output" (
      hit "../classAsyncFw_1_1SystemProcess.html#abbb594e48966f013c2efaf50e26b5e36" true
        "AsyncFw::SystemProcess"
      ∷ [])
    ∷ []
