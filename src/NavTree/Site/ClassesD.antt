-- ===== src/NavTree/Site/ClassesD.antt =====
-- The lists of members that the site loads for a class, docs/class*.js.
use async_fw.Base.{some}
use async_fw.NavTree.Entries.{entry, leaf, script, items, Entries, end, ◌⨾◌}

unfoldable pub class_data_array_list : Entries
class_data_array_list =
    entry "join" (some "classAsyncFw_1_1DataArrayList.html#aae4334ca3819a5f8b983dd90ecaf9404") leaf
    ⨾ end

unfoldable pub class_data_array_socket : Entries
class_data_array_socket =
    entry "transmit" (some "classAsyncFw_1_1DataArraySocket.html#ac7366a53ca9c5c43bc3c6bb88b539d53")
      leaf
    ⨾ entry "setConnectTimeout"
        (some "classAsyncFw_1_1DataArraySocket.html#aa54790ba28da3f83e8252fe5abaf6676") leaf
    ⨾ entry "setReconnectTimeout"
        (some "classAsyncFw_1_1DataArraySocket.html#a2d5f4259d7ac3b4689f6cdb236c72a59") leaf
    ⨾ entry "setReadTimeout"
        (some "classAsyncFw_1_1DataArraySocket.html#a72836b04feb74cca75bee3369d1970d7") leaf
    ⨾ entry "setWaitForEncryptionTimeout"
        (some "classAsyncFw_1_1DataArraySocket.html#acd4f5a119c8c2919bb1d3471f79c19bd") leaf
    ⨾ entry "setWaitKeepAliveResponseTimeout"
        (some "classAsyncFw_1_1DataArraySocket.html#a69849ab5c5e5070d4352656897733618") leaf
    ⨾ entry "setReadBuffers"
        (some "classAsyncFw_1_1DataArraySocket.html#a3778eda861efa9039c358a72c28b12d6") leaf
    ⨾ entry "setWriteBuffers"
        (some "classAsyncFw_1_1DataArraySocket.html#a6536b3ffa53f1461b8db3c0de6c4c5ba") leaf
    ⨾ entry "initServerConnection"
        (some "classAsyncFw_1_1DataArraySocket.html#a02696f976d1d5724c250b68d4fc5a0c5") leaf
    ⨾ entry "setHost"
        (some "classAsyncFw_1_1DataArraySocket.html#ace65cd7f4fb86d24ef6588508738404c") leaf
    ⨾ entry "hostAddress"
        (some "classAsyncFw_1_1DataArraySocket.html#a464539f5d9b05703b35c9b817659a42f") leaf
    ⨾ entry "hostPort"
        (some "classAsyncFw_1_1DataArraySocket.html#ac6538838fecb36204afd45f47b53a657") leaf
    ⨾ entry "sendKeepAlive"
        (some "classAsyncFw_1_1DataArraySocket.html#a60d24e73561b9ffc720deefca7a6f720") leaf
    ⨾ entry "state" (some "classAsyncFw_1_1DataArraySocket.html#ae20bbfbd7138f5a6e0003ed6b117a7f7")
        leaf
    ⨾ entry "connect"
        (some "classAsyncFw_1_1DataArraySocket.html#aed242e797aea527f8b86c4bc866ab454") leaf
    ⨾ entry "disconnect"
        (some "classAsyncFw_1_1DataArraySocket.html#a9942cbf100e7898ba95c8fb92e059ae8") leaf
    ⨾ entry "releaseBuffer"
        (some "classAsyncFw_1_1DataArraySocket.html#af6faaf80328db0a1644cd6b89ffae7eb") leaf
    ⨾ entry "stateEvent"
        (some "classAsyncFw_1_1DataArraySocket.html#afae26d6d937eddd4b7c64f48933c0984") leaf
    ⨾ entry "readEvent"
        (some "classAsyncFw_1_1DataArraySocket.html#a1a1f3404abcb93af27de1d7bc0a958b1") leaf
    ⨾ entry "stateChanged"
        (some "classAsyncFw_1_1DataArraySocket.html#a02dbcce97207d018e0ab0ab3ce78b7be") leaf
    ⨾ entry "received"
        (some "classAsyncFw_1_1DataArraySocket.html#ab0c23db25054ae85a92b6fb57f7da125") leaf
    ⨾ end

unfoldable pub class_data_array_tcp_client : Entries
class_data_array_tcp_client =
    entry "Thread" (some "classAsyncFw_1_1DataArrayTcpClient_1_1Thread.html")
      (script "classAsyncFw_1_1DataArrayTcpClient_1_1Thread")
    ⨾ entry "Result"
        (some "classAsyncFw_1_1DataArrayTcpClient.html#ac9d422208fb30613d8eb7781f9241f7b")
        (items (
          entry "ErrorExchangeNotActive"
            (some
              "classAsyncFw_1_1DataArrayTcpClient.html#ac9d422208fb30613d8eb7781f9241f7ba312ca3075c322f911a81152fda9b91e4")
            leaf
          ⨾ entry "ErrorExchangeTransmit"
              (some
                "classAsyncFw_1_1DataArrayTcpClient.html#ac9d422208fb30613d8eb7781f9241f7baf4fd635887a0ada6dde08967253fa2d1")
              leaf
          ⨾ entry "ErrorExchangeConnectionClose"
              (some
                "classAsyncFw_1_1DataArrayTcpClient.html#ac9d422208fb30613d8eb7781f9241f7ba9f0e5d9d512fd37f516031df3e7e2560")
              leaf
          ⨾ entry "ErrorExchangeTimeout"
              (some
                "classAsyncFw_1_1DataArrayTcpClient.html#ac9d422208fb30613d8eb7781f9241f7bad6409e4e73f5751be1f7765c9ca7b84e")
              leaf
          ⨾ entry "ErrorExchangeThread"
              (some
                "classAsyncFw_1_1DataArrayTcpClient.html#ac9d422208fb30613d8eb7781f9241f7ba2ce8e07b6e0c64ad132c4252ab4d5d28")
              leaf
          ⨾ end))
    ⨾ entry "DataArrayTcpClient"
        (some "classAsyncFw_1_1DataArrayTcpClient.html#ac15595fca2d28f650f05557cb85c15ef") leaf
    ⨾ entry "socketStateChanged"
        (some "classAsyncFw_1_1DataArrayTcpClient.html#acc665d05a338bf954fcdda64fe6ee8c7") leaf
    ⨾ entry "connectToHost"
        (some "classAsyncFw_1_1DataArrayTcpClient.html#ab1d57ed772640642f422515435d62197") leaf
    ⨾ entry "connectToHost"
        (some "classAsyncFw_1_1DataArrayTcpClient.html#a39e5b88e09a327955fb47b64dc60f568") leaf
    ⨾ entry "createThread"
        (some "classAsyncFw_1_1DataArrayTcpClient.html#af5306849ea109fb9e5bfba5360cfe57a") leaf
    ⨾ entry "createSocket"
        (some "classAsyncFw_1_1DataArrayTcpClient.html#aa005c8c643454bd1ae4ae0c7fe4c1068") leaf
    ⨾ entry "destroySocket"
        (some "classAsyncFw_1_1DataArrayTcpClient.html#afb856fb1b426dd583fc46062f347b3f9") leaf
    ⨾ entry "exchange"
        (some "classAsyncFw_1_1DataArrayTcpClient.html#a380c907a396d306611fe7dc21f35f74f") leaf
    ⨾ entry "socketLimit"
        (some "classAsyncFw_1_1DataArrayTcpClient.html#a568d86a72be68556d29cb76855dd8029") leaf
    ⨾ entry "setConnectTimeout"
        (some "classAsyncFw_1_1DataArrayTcpClient.html#a1023f2107bd696aab3c7e1d3b661fc91") leaf
    ⨾ entry "setReconnectTimeout"
        (some "classAsyncFw_1_1DataArrayTcpClient.html#a89ec7e88a650fa0d5eeafcf72afa56f9") leaf
    ⨾ entry "connectionStateChanged"
        (some "classAsyncFw_1_1DataArrayTcpClient.html#a4ae40b5452d25984450f8e4b22d051f9") leaf
    ⨾ end

unfoldable pub class_data_array_tcp_client_thread : Entries
class_data_array_tcp_client_thread =
    entry "client"
      (some "classAsyncFw_1_1DataArrayTcpClient_1_1Thread.html#aa186a054294b6f836da1f31e0f2f02ad")
      leaf
    ⨾ end

unfoldable pub class_data_array_tcp_server : Entries
class_data_array_tcp_server =
    entry "DataArrayTcpServer"
      (some "classAsyncFw_1_1DataArrayTcpServer.html#ae0a1c3637fc972782b2716a2183773b6") leaf
    ⨾ entry "quit"
        (some "classAsyncFw_1_1DataArrayTcpServer.html#a236741fbc0785fa65edfa6016011a5ab") leaf
    ⨾ entry "listen"
        (some "classAsyncFw_1_1DataArrayTcpServer.html#a2fbfcf86915fd5703ce0dce804f7475f") leaf
    ⨾ entry "close"
        (some "classAsyncFw_1_1DataArrayTcpServer.html#a322e0207f5e60a9d6567e1098f5dbece") leaf
    ⨾ entry "setAlwaysConnect"
        (some "classAsyncFw_1_1DataArrayTcpServer.html#aaf79299ffea6dd3d665d64f5ab70f068") leaf
    ⨾ entry "listening"
        (some "classAsyncFw_1_1DataArrayTcpServer.html#aee0352f08202c4ee379b244f69e2a2e8") leaf
    ⨾ entry "setTlsContext"
        (some "classAsyncFw_1_1DataArrayTcpServer.html#a2af94dfaa43841e7f2aac8cd35eb9f9e") leaf
    ⨾ entry "setTlsContext"
        (some "classAsyncFw_1_1DataArrayTcpServer.html#a368587c93e41ea8004ee7ffdf98b10ca") leaf
    ⨾ end

unfoldable pub class_data_array_view : Entries
class_data_array_view =
    entry "DataArrayView"
      (some "classAsyncFw_1_1DataArrayView.html#ad04f46e3d78a878d98603a6820e6039d") leaf
    ⨾ entry "DataArrayView"
        (some "classAsyncFw_1_1DataArrayView.html#a0614fa75fc23b3a9839c45733957d6e0") leaf
    ⨾ entry "DataArrayView"
        (some "classAsyncFw_1_1DataArrayView.html#a5a35bb0c7c6c44781b883a789520128c") leaf
    ⨾ entry "DataArrayView"
        (some "classAsyncFw_1_1DataArrayView.html#a5037f9b6a55397a1a999e22198bb54ea") leaf
    ⨾ entry "split" (some "classAsyncFw_1_1DataArrayView.html#af0409dfe7cdeea6df5d33174abb0e464")
        leaf
    ⨾ end

unfoldable pub class_data_stream : Entries
class_data_stream =
    entry "DataStream" (some "classAsyncFw_1_1DataStream.html#aadb8f27fe18a349a25b2cd656d686f92")
      leaf
    ⨾ entry "DataStream" (some "classAsyncFw_1_1DataStream.html#a5483f91b758e0383fec1fd3c540425ef")
        leaf
    ⨾ entry "operator<<" (some "classAsyncFw_1_1DataStream.html#ac2fcf2fccb05fc820d943721eb827f20")
        leaf
    ⨾ entry "array" (some "classAsyncFw_1_1DataStream.html#ae64c4b08a3259146d4476c0385352479") leaf
    ⨾ entry "fail" (some "classAsyncFw_1_1DataStream.html#a58e67062bf6cd3f77a8203758b01eaf8") leaf
    ⨾ end
