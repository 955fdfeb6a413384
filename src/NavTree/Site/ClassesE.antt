-- ===== src/NavTree/Site/ClassesE.antt =====
-- The lists of members that the site loads for a class, docs/class*.js.
use async_fw.Base.{some}
use async_fw.NavTree.Entries.{entry, leaf, script, Entries, end, ◌⨾◌}

unfoldable pub class_file : Entries
class_file =
    entry "File" (some "classAsyncFw_1_1File.html#aac258c3ca8290c71ed3f6118caa3652e") leaf
    ⨾ entry "~File" (some "classAsyncFw_1_1File.html#ac704ebdf5f57d7a1c5ddf409d797fb69") leaf
    ⨾ entry "open" (some "classAsyncFw_1_1File.html#a212a2b7db1a9cffd87c78b0285671bea") leaf
    ⨾ entry "open" (some "classAsyncFw_1_1File.html#a8f534ddab32c516f07c26b766b99fabc") leaf
    ⨾ entry "isOpen" (some "classAsyncFw_1_1File.html#af6794f27c00b09ee3d5ea65c16de7334") leaf
    ⨾ entry "close" (some "classAsyncFw_1_1File.html#a83cbce54d6c3b8c2f417b51f6b3f488c") leaf
    ⨾ entry "flush" (some "classAsyncFw_1_1File.html#af87fa862de707575b8badd044a5af80e") leaf
    ⨾ entry "remove" (some "classAsyncFw_1_1File.html#a22c7e349dbcc3242374c6c685948d201") leaf
    ⨾ entry "size" (some "classAsyncFw_1_1File.html#a51e2de0b42a61ced3dff12675e78490e") leaf
    ⨾ entry "exists" (some "classAsyncFw_1_1File.html#a4260fca380a387a8347b83bb4bee91b5") leaf
    ⨾ entry "read" (some "classAsyncFw_1_1File.html#a7e940f76fe48e35d1273f06e376541eb") leaf
    ⨾ entry "write" (some "classAsyncFw_1_1File.html#a0cd5ad18548cd40cd34f2146a63bb147") leaf
    ⨾ entry "read" (some "classAsyncFw_1_1File.html#a39260c14055a9f001825ec3c454ecf0f") leaf
    ⨾ entry "write" (some "classAsyncFw_1_1File.html#a2965e419210567f0a2f81f30b0862ee6") leaf
    ⨾ entry "readLine" (some "classAsyncFw_1_1File.html#a861146c8fe75ac121d094faa88dca18f") leaf
    ⨾ entry "fail" (some "classAsyncFw_1_1File.html#ad16ba208a1a58d6c8fda79766fe42aaa") leaf
    ⨾ entry "tellg" (some "classAsyncFw_1_1File.html#aaec950aa1cced82715667e8d0bd9664b") leaf
    ⨾ entry "tellp" (some "classAsyncFw_1_1File.html#a5d34b6e9d6a397e82a6f7bec62ea2f4d") leaf
    ⨾ entry "fstream" (some "classAsyncFw_1_1File.html#aa6ae13a7d7a317da534536f29d4bd803") leaf
    ⨾ end

unfoldable pub class_file_system_watcher : Entries
class_file_system_watcher =
    entry "FileSystemWatcher"
      (some "classAsyncFw_1_1FileSystemWatcher.html#acd061a60fbaea1bb3c7d020e0da99039") leaf
    ⨾ entry "~FileSystemWatcher"
        (some "classAsyncFw_1_1FileSystemWatcher.html#adfdbffe1e371260804159964e919b78b") leaf
    ⨾ entry "addPath"
        (some "classAsyncFw_1_1FileSystemWatcher.html#a54e1efecd58f2cbae2932eba716de6a9") leaf
    ⨾ entry "addPaths"
        (some "classAsyncFw_1_1FileSystemWatcher.html#aa4e37387e27aa1508584b7d0b199d165") leaf
    ⨾ entry "removePath"
        (some "classAsyncFw_1_1FileSystemWatcher.html#a233f7b546957d245122b1527b6605230") leaf
    ⨾ entry "removePaths"
        (some "classAsyncFw_1_1FileSystemWatcher.html#a437baed4f56fd823fa2ba42dc5be781c") leaf
    ⨾ entry "paths"
        (some "classAsyncFw_1_1FileSystemWatcher.html#ab174c18c8399c50a7818c456e2a51551") leaf
    ⨾ entry "notify"
        (some "classAsyncFw_1_1FileSystemWatcher.html#a4c808b22785dbc3182a9e7fa600b0919") leaf
    ⨾ end

unfoldable pub class_function_connection_guard : Entries
class_function_connection_guard =
    entry "FunctionConnectionGuard"
      (some "classAsyncFw_1_1FunctionConnectionGuard.html#ac48d8cd651992f0587eaa4fce726edaf") leaf
    ⨾ entry "FunctionConnectionGuard"
        (some "classAsyncFw_1_1FunctionConnectionGuard.html#adcf72c33d343877b8bfa41036cb2e710") leaf
    ⨾ entry "FunctionConnectionGuard"
        (some "classAsyncFw_1_1FunctionConnectionGuard.html#ad81a16802c1e93b812c25fa1545da727") leaf
    ⨾ entry "~FunctionConnectionGuard"
        (some "classAsyncFw_1_1FunctionConnectionGuard.html#a67c18ab01bdae4da0513e49c8b092597") leaf
    ⨾ entry "operator="
        (some "classAsyncFw_1_1FunctionConnectionGuard.html#a6dcd772a1fc087de360b5d0b4588f83e") leaf
    ⨾ entry "operator="
        (some "classAsyncFw_1_1FunctionConnectionGuard.html#aa887547d9a0d2889e172893ae9421a8d") leaf
    ⨾ entry "operator bool"
        (some "classAsyncFw_1_1FunctionConnectionGuard.html#acf91863f12533d5e289f9b2c085ea71f") leaf
    ⨾ end

unfoldable pub class_function_connection_guard_list : Entries
class_function_connection_guard_list =
    entry "operator+="
      (some "classAsyncFw_1_1FunctionConnectionGuardList.html#a1868fe28dabfb86ed0d0eb500eeda9f2")
      leaf
    ⨾ end

unfoldable pub class_function_connector : Entries
class_function_connector =
    entry "Policy" (some "structAsyncFw_1_1FunctionConnector_1_1Policy.html") leaf
    ⨾ entry "Protected"
        (some "classAsyncFw_1_1FunctionConnector.html#a9fb8f282c88da90aeaab52a3c174d82b") leaf
    ⨾ entry "connect"
        (some "classAsyncFw_1_1FunctionConnector.html#ae1f65144956b3b1247d58614e4080f63") leaf
    ⨾ entry "connect"
        (some "classAsyncFw_1_1FunctionConnector.html#af022579793868d73d23c179298930724") leaf
    ⨾ entry "operator()"
        (some "classAsyncFw_1_1FunctionConnector.html#acc31eb4d17c3cc86ef80c37b169f846d") leaf
    ⨾ end

unfoldable pub class_http_server : Entries
class_http_server =
    entry "TcpSocket" (some "classAsyncFw_1_1HttpServer_1_1TcpSocket.html")
      (script "classAsyncFw_1_1HttpServer_1_1TcpSocket")
    ⨾ entry "Response" (some "classAsyncFw_1_1HttpServer_1_1Response.html")
        (script "classAsyncFw_1_1HttpServer_1_1Response")
    ⨾ entry "Request" (some "classAsyncFw_1_1HttpServer_1_1Request.html")
        (script "classAsyncFw_1_1HttpServer_1_1Request")
    ⨾ entry "HttpServer" (some "classAsyncFw_1_1HttpServer.html#a522928fa8bf3b13b706ac997d4f100dd")
        leaf
    ⨾ entry "addRoute" (some "classAsyncFw_1_1HttpServer.html#a5c32aee1be945562ee7c5601ecdc187b")
        leaf
    ⨾ entry "addRoute" (some "classAsyncFw_1_1HttpServer.html#a64e42967cdef1254142bcba26f246f07")
        leaf
    ⨾ entry "sendToWebSockets"
        (some "classAsyncFw_1_1HttpServer.html#a414198c976b0e4fa621127ec7146b264") leaf
    ⨾ entry "setPeek" (some "classAsyncFw_1_1HttpServer.html#ad0bb08fb4a0ef0fd28961e29a8275bd0")
        leaf
    ⨾ entry "clearConnections"
        (some "classAsyncFw_1_1HttpServer.html#ab3eeb1643d4482345afcd9f971c020ac") leaf
    ⨾ entry "clearConnections"
        (some "classAsyncFw_1_1HttpServer.html#ad3761260dfd18899afc22c6f4bc0c556") leaf
    ⨾ entry "webSocketSend"
        (some "classAsyncFw_1_1HttpServer.html#adbe9b1d1649b32cb126ae37fcd37914f") leaf
    ⨾ entry "sendToWebSockets"
        (some "classAsyncFw_1_1HttpServer.html#ac1225b4e5fe3b38d5c6ef4c664d0a59b") leaf
    ⨾ entry "disconnectFromHost"
        (some "classAsyncFw_1_1HttpServer.html#ad7dae50cc3787112980fa7075a60f811") leaf
    ⨾ entry "listen" (some "classAsyncFw_1_1HttpServer.html#aa1ce738d4f20186506c1c4f4290a8a3d") leaf
    ⨾ entry "close" (some "classAsyncFw_1_1HttpServer.html#a8f4f0809de66b8631a9134fd823772f3") leaf
    ⨾ entry "port" (some "classAsyncFw_1_1HttpServer.html#ae1ea4f1df23f9d51820cd75d0adb7cac") leaf
    ⨾ entry "hasTls" (some "classAsyncFw_1_1HttpServer.html#a1e3e419d07c51b25f0f4910db1e21b1f") leaf
    ⨾ entry "setTlsContext"
        (some "classAsyncFw_1_1HttpServer.html#a313be3a920c19f58526ee184744699c1") leaf
    ⨾ entry "setEnableCorsRequests"
        (some "classAsyncFw_1_1HttpServer.html#a6806aba6259233c939f9c44f577314ce") leaf
    ⨾ entry "incoming" (some "classAsyncFw_1_1HttpServer.html#ab0370ceb3eec1973e97a19d65552845b")
        leaf
    ⨾ entry "webSocketReceived"
        (some "classAsyncFw_1_1HttpServer.html#abc4ca40dd30bf85e0328a65360e2038f") leaf
    ⨾ end

unfoldable pub class_http_server_request : Entries
class_http_server_request =
    entry "Method"
      (some "classAsyncFw_1_1HttpServer_1_1Request.html#a41d6c54e0fbca4f6d6bc65abb6a97827") leaf
    ⨾ entry "Request"
        (some "classAsyncFw_1_1HttpServer_1_1Request.html#adb47352909f6cc86597a33950b5f19a6") leaf
    ⨾ entry "method"
        (some "classAsyncFw_1_1HttpServer_1_1Request.html#a4f2b12b853417562150d8af0a5622ef0") leaf
    ⨾ entry "methodName"
        (some "classAsyncFw_1_1HttpServer_1_1Request.html#a86b3acbb445c3fde881a1fe31441a9c8") leaf
    ⨾ entry "path"
        (some "classAsyncFw_1_1HttpServer_1_1Request.html#afa488a05d879b6cbdca0853401352d19") leaf
    ⨾ entry "heaaderItemValue"
        (some "classAsyncFw_1_1HttpServer_1_1Request.html#a52389751ddf9659da47c8a98ec71cf03") leaf
    ⨾ entry "queryItemValue"
        (some "classAsyncFw_1_1HttpServer_1_1Request.html#a425bab4718cc7b8958b3db159335f471") leaf
    ⨾ entry "content"
        (some "classAsyncFw_1_1HttpServer_1_1Request.html#ae9ef372f9c20c4500ac2c4a44ac3d5ec") leaf
    ⨾ entry "peerAddress"
        (some "classAsyncFw_1_1HttpServer_1_1Request.html#ae6dd1000936e0237652c11a2845b3f7d") leaf
    ⨾ entry "setSocketData"
        (some "classAsyncFw_1_1HttpServer_1_1Request.html#ae6490e010a9dc63eda1c86296bd5e7ed") leaf
    ⨾ entry "socketData"
        (some "classAsyncFw_1_1HttpServer_1_1Request.html#a80a8403dbddf8e7b6bd5f9f687f5e543") leaf
    ⨾ entry "response"
        (some "classAsyncFw_1_1HttpServer_1_1Request.html#a6183c383629786f1f45cc58a7cdba48c") leaf
    ⨾ entry "switchingProtocols"
        (some "classAsyncFw_1_1HttpServer_1_1Request.html#a2af52a5e15a5072bc2ae2561eb631a96") leaf
    ⨾ entry "fail"
        (some "classAsyncFw_1_1HttpServer_1_1Request.html#a3ca24aa59e822e625aa5c75b85e0d70b") leaf
    ⨾ end
