-- ===== src/Search/Scripts/Files.antt =====
-- docs/search/files_0.js to docs/search/files_c.js: entries of the search.
use async_fw.Base.{true, List, [], ◌∷◌}
use async_fw.Search.Results.{Found}
use async_fw.Search.Scripts.Entry.{hit, found}

unfoldable pub files_0 : List Found
files_0 =
    found "abstractsocket_2eh_0" "AbstractSocket.h" (hit "../AbstractSocket_8h.html" true "" ∷ [])
    ∷ found "abstractthread_2eh_1" "AbstractThread.h" (hit "../AbstractThread_8h.html" true "" ∷ [])
    ∷ found "abstracttlssocket_2eh_2" "AbstractTlsSocket.h"
        (hit "../AbstractTlsSocket_8h.html" true "" ∷ [])
    ∷ found "addressresolver_2eh_3" "AddressResolver.h"
        (hit "../AddressResolver_8h.html" true "" ∷ [])
    ∷ found "anydata_2eh_4" "AnyData.h" (hit "../AnyData_8h.html" true "" ∷ [])
    ∷ found "applicationnotifier_2eh_5" "ApplicationNotifier.h"
        (hit "../ApplicationNotifier_8h.html" true "" ∷ [])
    ∷ []

unfoldable pub files_1 : List Found
files_1 =
    found "coroutine_2eh_0" "Coroutine.h" (hit "../Coroutine_8h.html" true "" ∷ [])
    ∷ found "cryptor_2eh_1" "Cryptor.h" (hit "../Cryptor_8h.html" true "" ∷ [])
    ∷ []

unfoldable pub files_2 : List Found
files_2 =
    found "dataarray_2eh_0" "DataArray.h" (hit "../DataArray_8h.html" true "" ∷ [])
    ∷ found "dataarrayabstracttcp_2eh_1" "DataArrayAbstractTcp.h"
        (hit "../DataArrayAbstractTcp_8h.html" true "" ∷ [])
    ∷ found "dataarraysocket_2eh_2" "DataArraySocket.h"
        (hit "../DataArraySocket_8h.html" true "" ∷ [])
    ∷ found "dataarraytcpclient_2eh_3" "DataArrayTcpClient.h"
        (hit "../DataArrayTcpClient_8h.html" true "" ∷ [])
    ∷ found "dataarraytcpserver_2eh_4" "DataArrayTcpServer.h"
        (hit "../DataArrayTcpServer_8h.html" true "" ∷ [])
    ∷ []

unfoldable pub files_3 : List Found
files_3 =
    found "file_2eh_0" "File.h" (hit "../File_8h.html" true "" ∷ [])
    ∷ found "filesystemwatcher_2eh_1" "FileSystemWatcher.h"
        (hit "../FileSystemWatcher_8h.html" true "" ∷ [])
    ∷ found "functionconnector_2eh_2" "FunctionConnector.h"
        (hit "../FunctionConnector_8h.html" true "" ∷ [])
    ∷ []

unfoldable pub files_4 : List Found
files_4 =
    found "httpserver_2eh_0" "HttpServer.h" (hit "../HttpServer_8h.html" true "" ∷ [])
    ∷ found "httpsocket_2eh_1" "HttpSocket.h" (hit "../HttpSocket_8h.html" true "" ∷ [])
    ∷ []

unfoldable pub files_5 : List Found
files_5 = found "instance_2eh_0" "Instance.h" (hit "../Instance_8h.html" true "" ∷ []) ∷ []

unfoldable pub files_6 : List Found
files_6 =
    found "listensocket_2eh_0" "ListenSocket.h" (hit "../ListenSocket_8h.html" true "" ∷ [])
    ∷ found "log_2eh_1" "Log.h" (hit "../Log_8h.html" true "" ∷ [])
    ∷ found "logstream_2eh_2" "LogStream.h" (hit "../LogStream_8h.html" true "" ∷ [])
    ∷ []

unfoldable pub files_7 : List Found
files_7 =
    found "mainthread_2eh_0" "MainThread.h" (hit "../MainThread_8h.html" true "" ∷ [])
    ∷ found "multicastdns_2eh_1" "MulticastDns.h" (hit "../MulticastDns_8h.html" true "" ∷ [])
    ∷ []

unfoldable pub files_8 : List Found
files_8 =
    found "pollnotifier_2eh_0" "PollNotifier.h" (hit "../PollNotifier_8h.html" true "" ∷ []) ∷ []

unfoldable pub files_9 : List Found
files_9 =
    found "rrd_2eh_0" "Rrd.h" (hit "../Rrd_8h.html" true "" ∷ [])
    ∷ found "rrdclient_2eh_1" "RrdClient.h" (hit "../RrdClient_8h.html" true "" ∷ [])
    ∷ found "rrdserver_2eh_2" "RrdServer.h" (hit "../RrdServer_8h.html" true "" ∷ [])
    ∷ []

unfoldable pub files_a : List Found
files_a =
    found "systemprocess_2eh_0" "SystemProcess.h" (hit "../SystemProcess_8h.html" true "" ∷ []) ∷ []

unfoldable pub files_b : List Found
files_b =
    found "task_2eh_0" "Task.h" (hit "../Task_8h.html" true "" ∷ [])
    ∷ found "thread_2eh_1" "Thread.h" (hit "../Thread_8h.html" true "" ∷ [])
    ∷ found "threadpool_2eh_2" "ThreadPool.h" (hit "../ThreadPool_8h.html" true "" ∷ [])
    ∷ found "timer_2eh_3" "Timer.h" (hit "../Timer_8h.html" true "" ∷ [])
    ∷ found "tlscontext_2eh_4" "TlsContext.h" (hit "../TlsContext_8h.html" true "" ∷ [])
    ∷ []

unfoldable pub files_c : List Found
files_c = found "version_2eh_0" "Version.h" (hit "../Version_8h.html" true "" ∷ []) ∷ []
