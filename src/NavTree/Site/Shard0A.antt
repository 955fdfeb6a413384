-- ===== src/NavTree/Site/Shard0A.antt =====
-- Quarter 1 of an index file: pages and their places in the tree, docs/navtreeindex0.js.
use Prim.Native.String.{String}
use async_fw.Base.{ℕ, List, [], ◌∷◌}

unfoldable pub shard_0_a : List (String × List ℕ)
shard_0_a =
    ("AbstractSocket_8h.html", 3 ∷ 0 ∷ 0 ∷ 0 ∷ [])
    ∷ ("AbstractSocket_8h_source.html", 3 ∷ 0 ∷ 0 ∷ 0 ∷ [])
    ∷ ("AbstractThread_8h.html", 3 ∷ 0 ∷ 0 ∷ 1 ∷ [])
    ∷ ("AbstractThread_8h_source.html", 3 ∷ 0 ∷ 0 ∷ 1 ∷ [])
    ∷ ("AbstractTlsSocket_8h.html", 3 ∷ 0 ∷ 0 ∷ 2 ∷ [])
    ∷ ("AbstractTlsSocket_8h_source.html", 3 ∷ 0 ∷ 0 ∷ 2 ∷ [])
    ∷ ("AddressResolver_8h.html", 3 ∷ 0 ∷ 1 ∷ 0 ∷ [])
    ∷ ("AddressResolver_8h_source.html", 3 ∷ 0 ∷ 1 ∷ 0 ∷ [])
    ∷ ("AnyData_8h.html", 3 ∷ 0 ∷ 0 ∷ 3 ∷ [])
    ∷ ("AnyData_8h_source.html", 3 ∷ 0 ∷ 0 ∷ 3 ∷ [])
    ∷ ("ApplicationNotifier_2main_8cpp-example.html", 4 ∷ 0 ∷ [])
    ∷ ("ApplicationNotifier_8h.html", 3 ∷ 0 ∷ 1 ∷ 1 ∷ [])
    ∷ ("ApplicationNotifier_8h_source.html", 3 ∷ 0 ∷ 1 ∷ 1 ∷ [])
    ∷ ("ContainerTask_2main_8cpp-example.html", 4 ∷ 1 ∷ [])
    ∷ ("CoroutineInvoke_2main_8cpp-example.html", 4 ∷ 3 ∷ [])
    ∷ ("CoroutineWait_2main_8cpp-example.html", 4 ∷ 4 ∷ [])
    ∷ ("Coroutine_2main_8cpp-example.html", 4 ∷ 2 ∷ [])
    ∷ ("Coroutine_8h.html", 3 ∷ 0 ∷ 1 ∷ 2 ∷ [])
    ∷ ("Coroutine_8h_source.html", 3 ∷ 0 ∷ 1 ∷ 2 ∷ [])
    ∷ ("Cryptor_2main_8cpp-example.html", 4 ∷ 5 ∷ [])
    ∷ ("Cryptor_8h.html", 3 ∷ 0 ∷ 1 ∷ 3 ∷ [])
    ∷ ("Cryptor_8h_source.html", 3 ∷ 0 ∷ 1 ∷ 3 ∷ [])
    ∷ ("DataArrayAbstractTcp_8h.html", 3 ∷ 0 ∷ 1 ∷ 4 ∷ [])
    ∷ ("DataArrayAbstractTcp_8h_source.html", 3 ∷ 0 ∷ 1 ∷ 4 ∷ [])
    ∷ ("DataArraySocket_8h.html", 3 ∷ 0 ∷ 1 ∷ 5 ∷ [])
    ∷ ("DataArraySocket_8h_source.html", 3 ∷ 0 ∷ 1 ∷ 5 ∷ [])
    ∷ ("DataArrayTcpClient_8h.html", 3 ∷ 0 ∷ 1 ∷ 6 ∷ [])
    ∷ ("DataArrayTcpClient_8h_source.html", 3 ∷ 0 ∷ 1 ∷ 6 ∷ [])
    ∷ ("DataArrayTcpServer_8h.html", 3 ∷ 0 ∷ 1 ∷ 7 ∷ [])
    ∷ ("DataArrayTcpServer_8h_source.html", 3 ∷ 0 ∷ 1 ∷ 7 ∷ [])
    ∷ ("DataArrayTcp_2main_8cpp-example.html", 4 ∷ 7 ∷ [])
    ∷ ("DataArray_2main_8cpp-example.html", 4 ∷ 6 ∷ [])
    ∷ ("DataArray_8h.html", 3 ∷ 0 ∷ 0 ∷ 5 ∷ [])
    ∷ ("DataArray_8h_source.html", 3 ∷ 0 ∷ 0 ∷ 5 ∷ [])
    ∷ ("FileSystemWatcher_2main_8cpp-example.html", 4 ∷ 8 ∷ [])
    ∷ ("FileSystemWatcher_8h.html", 3 ∷ 0 ∷ 1 ∷ 9 ∷ [])
    ∷ ("FileSystemWatcher_8h_source.html", 3 ∷ 0 ∷ 1 ∷ 9 ∷ [])
    ∷ ("File_8h.html", 3 ∷ 0 ∷ 1 ∷ 8 ∷ [])
    ∷ ("File_8h_source.html", 3 ∷ 0 ∷ 1 ∷ 8 ∷ [])
    ∷ ("FunctionConnector_2main_8cpp-example.html", 4 ∷ 9 ∷ [])
    ∷ ("FunctionConnector_8h.html", 3 ∷ 0 ∷ 0 ∷ 7 ∷ [])
    ∷ ("FunctionConnector_8h_source.html", 3 ∷ 0 ∷ 0 ∷ 7 ∷ [])
    ∷ ("HttpServer_2main_8cpp-example.html", 4 ∷ 10 ∷ [])
    ∷ ("HttpServer_8h.html", 3 ∷ 0 ∷ 1 ∷ 10 ∷ [])
    ∷ ("HttpServer_8h_source.html", 3 ∷ 0 ∷ 1 ∷ 10 ∷ [])
    ∷ ("HttpSocket_2main_8cpp-example.html", 4 ∷ 11 ∷ [])
    ∷ ("HttpSocket_8h.html", 3 ∷ 0 ∷ 1 ∷ 11 ∷ [])
    ∷ ("HttpSocket_8h_source.html", 3 ∷ 0 ∷ 1 ∷ 11 ∷ [])
    ∷ ("Instance_8h.html", 3 ∷ 0 ∷ 1 ∷ 12 ∷ [])
    ∷ ("Instance_8h_source.html", 3 ∷ 0 ∷ 1 ∷ 12 ∷ [])
    ∷ ("ListenSocket_2main_8cpp-example.html", 4 ∷ 13 ∷ [])
    ∷ ("ListenSocket_8h.html", 3 ∷ 0 ∷ 1 ∷ 13 ∷ [])
    ∷ ("ListenSocket_8h_source.html", 3 ∷ 0 ∷ 1 ∷ 13 ∷ [])
    ∷ ("LogStream_8h.html", 3 ∷ 0 ∷ 0 ∷ 9 ∷ [])
    ∷ ("LogStream_8h_source.html", 3 ∷ 0 ∷ 0 ∷ 9 ∷ [])
    ∷ ("LogTcp_2main_8cpp-example.html", 4 ∷ 15 ∷ [])
    ∷ ("Log_2main_8cpp-example.html", 4 ∷ 14 ∷ [])
    ∷ ("Log_8h.html", 3 ∷ 0 ∷ 1 ∷ 15 ∷ [])
    ∷ ("Log_8h_source.html", 3 ∷ 0 ∷ 1 ∷ 15 ∷ [])
    ∷ ("MainThread_8h.html", 3 ∷ 0 ∷ 1 ∷ 16 ∷ [])
    ∷ ("MainThread_8h_source.html", 3 ∷ 0 ∷ 1 ∷ 16 ∷ [])
    ∷ ("MulticastDns_2main_8cpp-example.html", 4 ∷ 16 ∷ [])
    ∷ ("MulticastDns_8h.html", 3 ∷ 0 ∷ 1 ∷ 18 ∷ [])
    ∷ []
