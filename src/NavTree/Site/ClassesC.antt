-- ===== src/NavTree/Site/ClassesC.antt =====
-- The lists of members that the site loads for a class, docs/class*.js.
use async_fw.Base.{some}
use async_fw.NavTree.Entries.{entry, leaf, script, items, Entries, end, ◌⨾◌}

unfoldable pub class_abstract_thread_pool : Entries
class_abstract_thread_pool =
    entry "Thread" (some "classAsyncFw_1_1AbstractThreadPool_1_1Thread.html")
      (script "classAsyncFw_1_1AbstractThreadPool_1_1Thread")
    ⨾ entry "name"
        (some "classAsyncFw_1_1AbstractThreadPool.html#ac312e723c2e0fa3e4cc18e518853bdf2") leaf
    ⨾ entry "threads"
        (some "classAsyncFw_1_1AbstractThreadPool.html#a15294f7912a633e62e26fe0f7848eb68") leaf
    ⨾ entry "appendThread"
        (some "classAsyncFw_1_1AbstractThreadPool.html#a1b2d31f7db01a7cacec702eb7323e620") leaf
    ⨾ entry "removeThread"
        (some "classAsyncFw_1_1AbstractThreadPool.html#a8dd6e5afe3b1c8f0fac9176568909c54") leaf
    ⨾ end

unfoldable pub class_abstract_thread_pool_thread : Entries
class_abstract_thread_pool_thread =
    entry "Thread"
      (some "classAsyncFw_1_1AbstractThreadPool_1_1Thread.html#a787b048ddebfd8b5d5d6c3988d0d90d3")
      leaf
    ⨾ entry "destroy"
        (some "classAsyncFw_1_1AbstractThreadPool_1_1Thread.html#aa4a8873e426f02286f1082de4083cb01")
        leaf
    ⨾ entry "pool"
        (some "classAsyncFw_1_1AbstractThreadPool_1_1Thread.html#a3f4c0689143ffada4c4569f43f93c5a9")
        leaf
    ⨾ end

unfoldable pub class_abstract_thread_waiter : Entries
class_abstract_thread_waiter =
    entry "complete"
      (some "classAsyncFw_1_1AbstractThread_1_1Waiter.html#af91079f02392dbcccd1ef5f99acb53f7") leaf
    ⨾ entry "wait"
        (some "classAsyncFw_1_1AbstractThread_1_1Waiter.html#ad2a62fc1276d8be1986a7e77f6dfb437")
        leaf
    ⨾ entry "waiting"
        (some "classAsyncFw_1_1AbstractThread_1_1Waiter.html#aaebe8ac927c9bd707aee2dd85b60eb22")
        leaf
    ⨾ end

unfoldable pub class_abstract_tls_socket : Entries
class_abstract_tls_socket =
    entry "AbstractTlsSocket"
      (some "classAsyncFw_1_1AbstractTlsSocket.html#a7800254e24419820e105e863c0266ac4") leaf
    ⨾ entry "~AbstractTlsSocket"
        (some "classAsyncFw_1_1AbstractTlsSocket.html#a75c2ff2d05c2d228ee92a33d755ca42f") leaf
    ⨾ entry "setDescriptor"
        (some "classAsyncFw_1_1AbstractTlsSocket.html#a89721fd68ed3de138aa6167dd98ec5fa") leaf
    ⨾ entry "connect"
        (some "classAsyncFw_1_1AbstractTlsSocket.html#a2d9c3d5d540b82fb516f5c56def48a02") leaf
    ⨾ entry "disconnect"
        (some "classAsyncFw_1_1AbstractTlsSocket.html#af52f94f709ab74eace61da79cbd8af7d") leaf
    ⨾ entry "close"
        (some "classAsyncFw_1_1AbstractTlsSocket.html#a46dbd8e4895445214a4f46ee46433d6c") leaf
    ⨾ entry "setContext"
        (some "classAsyncFw_1_1AbstractTlsSocket.html#af2e1d08071a0c8472fa1e8fd98f8f48d") leaf
    ⨾ entry "contextEmpty"
        (some "classAsyncFw_1_1AbstractTlsSocket.html#a9043562cf451851003009adedb277d7b") leaf
    ⨾ entry "activateReady"
        (some "classAsyncFw_1_1AbstractTlsSocket.html#ad26bb910e65bb758bfed6448e1af7186") leaf
    ⨾ entry "activateEvent"
        (some "classAsyncFw_1_1AbstractTlsSocket.html#a57ac6daff9926cf631abcd1e19073cc8") leaf
    ⨾ entry "read_available_fd"
        (some "classAsyncFw_1_1AbstractTlsSocket.html#a7244e3b461e0012dab1d9c3b1c0db78e") leaf
    ⨾ entry "read_fd"
        (some "classAsyncFw_1_1AbstractTlsSocket.html#a292ef97002bfefde576959435ed2ee25") leaf
    ⨾ entry "write_fd"
        (some "classAsyncFw_1_1AbstractTlsSocket.html#a84a79c1f921e96efd6b4f47cd7cd91e0") leaf
    ⨾ end

unfoldable pub class_address_resolver : Entries
class_address_resolver =
    entry "resolve" (some "classAsyncFw_1_1AddressResolver.html#a9a5b78be91762ae5adc7f19aede8a662")
      leaf
    ⨾ entry "coResolve"
        (some "classAsyncFw_1_1AddressResolver.html#a59f08f5d62fba62538b9094548fa1fd0") leaf
    ⨾ entry "completed"
        (some "classAsyncFw_1_1AddressResolver.html#adc88c3beebbade60ab2005599de37051") leaf
    ⨾ end

unfoldable pub class_application_notifier : Entries
class_application_notifier =
    entry "Value" (some "structAsyncFw_1_1ApplicationNotifier_1_1Value.html") leaf
    ⨾ entry "notify"
        (some "classAsyncFw_1_1ApplicationNotifier.html#a989eaa483fec75f7d90730d031db0b2a") leaf
    ⨾ end

unfoldable pub class_data_array : Entries
class_data_array =
    entry "DataArray" (some "classAsyncFw_1_1DataArray.html#ab3ca8135417a38c8438a82f226b792ec") leaf
    ⨾ entry "DataArray" (some "classAsyncFw_1_1DataArray.html#a80e9cc4ecd584fae8211c51838db9ba1")
        leaf
    ⨾ entry "DataArray" (some "classAsyncFw_1_1DataArray.html#adc24fdbdf9a018f646ac690cd7e2d52c")
        leaf
    ⨾ entry "DataArray" (some "classAsyncFw_1_1DataArray.html#ad3f202b6a0817e784de6018dcd2792c7")
        leaf
    ⨾ entry "view" (some "classAsyncFw_1_1DataArray.html#a5406261e5730adfa64e4d0bbd0083e31") leaf
    ⨾ entry "operator+=" (some "classAsyncFw_1_1DataArray.html#a3702a8fce4c65f1305c1900290c31dc1")
        leaf
    ⨾ entry "operator+" (some "classAsyncFw_1_1DataArray.html#a6b8c7a51c10ab479e7d9616d1bf5f4d3")
        leaf
    ⨾ entry "operator+=" (some "classAsyncFw_1_1DataArray.html#a45a99afaa074d531133fa7c8883aafa8")
        leaf
    ⨾ entry "operator+" (some "classAsyncFw_1_1DataArray.html#acdb72af8f6d536b397658ca5404733e1")
        leaf
    ⨾ end

unfoldable pub class_data_array_abstract_tcp : Entries
class_data_array_abstract_tcp =
    entry "Thread" (some "classAsyncFw_1_1DataArrayAbstractTcp_1_1Thread.html")
      (script "classAsyncFw_1_1DataArrayAbstractTcp_1_1Thread")
    ⨾ entry "Result"
        (some "classAsyncFw_1_1DataArrayAbstractTcp.html#a0a77d6d5e166af850a5dfb588ccbc8fb")
        (items (
          entry "ErrorTransmitInvoke"
            (some
              "classAsyncFw_1_1DataArrayAbstractTcp.html#a0a77d6d5e166af850a5dfb588ccbc8fba38dabc9c658f0b2bebeecf100ada6b0d")
            leaf
          ⨾ entry "ErrorTransmitNotActive"
              (some
                "classAsyncFw_1_1DataArrayAbstractTcp.html#a0a77d6d5e166af850a5dfb588ccbc8fbacdf8f0246690ec54521eb89db2e0676f")
              leaf
          ⨾ entry "ErrorTransmit"
              (some
                "classAsyncFw_1_1DataArrayAbstractTcp.html#a0a77d6d5e166af850a5dfb588ccbc8fbab13d6924f9f052b5cd28a86872b6bf86")
              leaf
          ⨾ end))
    ⨾ entry "DataArrayAbstractTcp"
        (some "classAsyncFw_1_1DataArrayAbstractTcp.html#adbdfede75d80d1c6c76800415d51b35c") leaf
    ⨾ entry "transmit"
        (some "classAsyncFw_1_1DataArrayAbstractTcp.html#a45af100bb7d2133f28884c278b8ec298") leaf
    ⨾ entry "disconnectFromHost"
        (some "classAsyncFw_1_1DataArrayAbstractTcp.html#aa9d59be7845d746853397e1905880434") leaf
    ⨾ entry "sockets"
        (some "classAsyncFw_1_1DataArrayAbstractTcp.html#a0f47aa063695308b15258c682cf9bc49") leaf
    ⨾ entry "setEncryptionDisabled"
        (some "classAsyncFw_1_1DataArrayAbstractTcp.html#af825c0bcfa4f37f618c19563246a2559") leaf
    ⨾ entry "setEncryptionDisabled"
        (some "classAsyncFw_1_1DataArrayAbstractTcp.html#aa63ef6a933e4d036529e7b32cb06a0d3") leaf
    ⨾ entry "setTlsContext"
        (some "classAsyncFw_1_1DataArrayAbstractTcp.html#a2af94dfaa43841e7f2aac8cd35eb9f9e") leaf
    ⨾ entry "setTlsContext"
        (some "classAsyncFw_1_1DataArrayAbstractTcp.html#a368587c93e41ea8004ee7ffdf98b10ca") leaf
    ⨾ entry "findMinimalSocketsThread"
        (some "classAsyncFw_1_1DataArrayAbstractTcp.html#a1d9557d91e39b12da701e6d371d71031") leaf
    ⨾ entry "received"
        (some "classAsyncFw_1_1DataArrayAbstractTcp.html#aa14fbf40d42b2d193009793538cf4cfc") leaf
    ⨾ entry "readTimeout"
        (some "classAsyncFw_1_1DataArrayAbstractTcp.html#ae58df4b570a50455f5f295513d7bdb52") leaf
    ⨾ entry "waitKeepAliveAnswerTimeout"
        (some "classAsyncFw_1_1DataArrayAbstractTcp.html#a922b46fe2c91ea4eb92f17da008422df") leaf
    ⨾ entry "waitForEncryptionTimeout"
        (some "classAsyncFw_1_1DataArrayAbstractTcp.html#ab4e8f2fc581da74be9e9f2a0845749d3") leaf
    ⨾ entry "maxThreads"
        (some "classAsyncFw_1_1DataArrayAbstractTcp.html#a7777e20d24f0dc8136bf916e1ae29440") leaf
    ⨾ entry "maxSockets"
        (some "classAsyncFw_1_1DataArrayAbstractTcp.html#a61d8fea700e5b4eda7434b7b3e55aedb") leaf
    ⨾ entry "socketReadBufferSize"
        (some "classAsyncFw_1_1DataArrayAbstractTcp.html#ab52e14dcbac67ced6f4f009cb2d44396") leaf
    ⨾ entry "maxReadBuffers"
        (some "classAsyncFw_1_1DataArrayAbstractTcp.html#a8bc546c3135e674fcf13e2ee8228fbab") leaf
    ⨾ entry "maxReadSize"
        (some "classAsyncFw_1_1DataArrayAbstractTcp.html#ad1cfe0836b7e9e184d3be17942b0dc4e") leaf
    ⨾ entry "maxWriteBuffers"
        (some "classAsyncFw_1_1DataArrayAbstractTcp.html#a43b6f6a4f67c9b2c718f48ea999d5727") leaf
    ⨾ entry "maxWriteSize"
        (some "classAsyncFw_1_1DataArrayAbstractTcp.html#a47d8c0d1876602ace92aad264ad62695") leaf
    ⨾ entry "disabledEncryptionHosts_"
        (some "classAsyncFw_1_1DataArrayAbstractTcp.html#ab09633096b1271c46c3778cdd56d8367") leaf
    ⨾ end

unfoldable pub class_data_array_abstract_tcp_thread : Entries
class_data_array_abstract_tcp_thread =
    entry "Thread"
      (some "classAsyncFw_1_1DataArrayAbstractTcp_1_1Thread.html#a09bd1e72ed2f3b30a12fede45bb98d86")
      leaf
    ⨾ entry "initSocket"
        (some
          "classAsyncFw_1_1DataArrayAbstractTcp_1_1Thread.html#aca7c5fcf08cc257de061af63342cd466")
        leaf
    ⨾ entry "destroySocket"
        (some
          "classAsyncFw_1_1DataArrayAbstractTcp_1_1Thread.html#ab6df6de1f9828a772e5968477ce5dffa")
        leaf
    ⨾ entry "pool"
        (some
          "classAsyncFw_1_1DataArrayAbstractTcp_1_1Thread.html#a658eb13fe8039a9a74f16e4dab9a1b20")
        leaf
    ⨾ end
