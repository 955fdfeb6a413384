-- ===== src/NavTree/Site/ListsA.antt =====
-- The other lists that the site loads on demand, docs/*.js.
use async_fw.Base.{none, some}
use async_fw.NavTree.Entries.{entry, leaf, script, items, Entries, end, ◌⨾◌}

unfoldable pub annotated_dup : Entries
annotated_dup =
    entry "AsyncFw" none (
      items (
        entry "AbstractSocket" (some "classAsyncFw_1_1AbstractSocket.html")
          (script "classAsyncFw_1_1AbstractSocket")
        ⨾ entry "AbstractThread" (some "classAsyncFw_1_1AbstractThread.html")
            (script "classAsyncFw_1_1AbstractThread")
        ⨾ entry "AbstractTlsSocket" (some "classAsyncFw_1_1AbstractTlsSocket.html")
            (script "classAsyncFw_1_1AbstractTlsSocket")
        ⨾ entry "AnyData" (some "structAsyncFw_1_1AnyData.html") (script "structAsyncFw_1_1AnyData")
        ⨾ entry "DataArray" (some "classAsyncFw_1_1DataArray.html")
            (script "classAsyncFw_1_1DataArray")
        ⨾ entry "DataArrayView" (some "classAsyncFw_1_1DataArrayView.html")
            (script "classAsyncFw_1_1DataArrayView")
        ⨾ entry "DataArrayList" (some "classAsyncFw_1_1DataArrayList.html")
            (script "classAsyncFw_1_1DataArrayList")
        ⨾ entry "DataStream" (some "classAsyncFw_1_1DataStream.html")
            (script "classAsyncFw_1_1DataStream")
        ⨾ entry "AbstractFunctionConnector" (some "classAsyncFw_1_1AbstractFunctionConnector.html")
            (script "classAsyncFw_1_1AbstractFunctionConnector")
        ⨾ entry "FunctionConnector" (some "classAsyncFw_1_1FunctionConnector.html")
            (script "classAsyncFw_1_1FunctionConnector")
        ⨾ entry "FunctionConnectionGuard" (some "classAsyncFw_1_1FunctionConnectionGuard.html")
            (script "classAsyncFw_1_1FunctionConnectionGuard")
        ⨾ entry "FunctionConnectionGuardList"
            (some "classAsyncFw_1_1FunctionConnectionGuardList.html")
            (script "classAsyncFw_1_1FunctionConnectionGuardList")
        ⨾ entry "LogStream" (some "classAsyncFw_1_1LogStream.html")
            (script "classAsyncFw_1_1LogStream")
        ⨾ entry "Thread" (some "classAsyncFw_1_1Thread.html") (script "classAsyncFw_1_1Thread")
        ⨾ entry "TlsContext" (some "classAsyncFw_1_1TlsContext.html")
            (script "classAsyncFw_1_1TlsContext")
        ⨾ entry "AddressResolver" (some "classAsyncFw_1_1AddressResolver.html")
            (script "classAsyncFw_1_1AddressResolver")
        ⨾ entry "ApplicationNotifier" (some "classAsyncFw_1_1ApplicationNotifier.html")
            (script "classAsyncFw_1_1ApplicationNotifier")
        ⨾ entry "CoroutineTask" (some "structAsyncFw_1_1CoroutineTask.html")
            (script "structAsyncFw_1_1CoroutineTask")
        ⨾ entry "CoroutineAwait" (some "structAsyncFw_1_1CoroutineAwait.html") leaf
        ⨾ entry "CoroutineInvokeAwait" (some "structAsyncFw_1_1CoroutineInvokeAwait.html") leaf
        ⨾ entry "Cryptor" (some "classAsyncFw_1_1Cryptor.html") leaf
        ⨾ entry "DataArrayAbstractTcp" (some "classAsyncFw_1_1DataArrayAbstractTcp.html")
            (script "classAsyncFw_1_1DataArrayAbstractTcp")
        ⨾ entry "DataArraySocket" (some "classAsyncFw_1_1DataArraySocket.html")
            (script "classAsyncFw_1_1DataArraySocket")
        ⨾ entry "DataArrayTcpClient" (some "classAsyncFw_1_1DataArrayTcpClient.html")
            (script "classAsyncFw_1_1DataArrayTcpClient")
        ⨾ entry "DataArrayTcpServer" (some "classAsyncFw_1_1DataArrayTcpServer.html")
            (script "classAsyncFw_1_1DataArrayTcpServer")
        ⨾ entry "File" (some "classAsyncFw_1_1File.html") (script "classAsyncFw_1_1File")
        ⨾ entry "FileSystemWatcher" (some "classAsyncFw_1_1FileSystemWatcher.html")
            (script "classAsyncFw_1_1FileSystemWatcher")
        ⨾ entry "HttpServer" (some "classAsyncFw_1_1HttpServer.html")
            (script "classAsyncFw_1_1HttpServer")
        ⨾ entry "HttpSocket" (some "classAsyncFw_1_1HttpSocket.html")
            (script "classAsyncFw_1_1HttpSocket")
        ⨾ entry "AbstractInstance" (some "classAsyncFw_1_1AbstractInstance.html")
            (script "classAsyncFw_1_1AbstractInstance")
        ⨾ entry "Instance" (some "classAsyncFw_1_1Instance.html")
            (script "classAsyncFw_1_1Instance")
        ⨾ entry "ListenSocket" (some "classAsyncFw_1_1ListenSocket.html")
            (script "classAsyncFw_1_1ListenSocket")
        ⨾ entry "AbstractLog" (some "classAsyncFw_1_1AbstractLog.html")
            (script "classAsyncFw_1_1AbstractLog")
        ⨾ entry "Log" (some "classAsyncFw_1_1Log.html") (script "classAsyncFw_1_1Log")
        ⨾ entry "MainThread" (some "classAsyncFw_1_1MainThread.html") leaf
        ⨾ entry "MulticastDns" (some "classAsyncFw_1_1MulticastDns.html")
            (script "classAsyncFw_1_1MulticastDns")
        ⨾ entry "PollNotifier" (some "classAsyncFw_1_1PollNotifier.html")
            (script "classAsyncFw_1_1PollNotifier")
        ⨾ entry "Rrd" (some "classAsyncFw_1_1Rrd.html") (script "classAsyncFw_1_1Rrd")
        ⨾ entry "RrdClient" (some "classAsyncFw_1_1RrdClient.html")
            (script "classAsyncFw_1_1RrdClient")
        ⨾ entry "RrdServer" (some "classAsyncFw_1_1RrdServer.html")
            (script "classAsyncFw_1_1RrdServer")
        ⨾ entry "SystemProcess" (some "classAsyncFw_1_1SystemProcess.html")
            (script "classAsyncFw_1_1SystemProcess")
        ⨾ entry "AbstractTask" (some "classAsyncFw_1_1AbstractTask.html")
            (script "classAsyncFw_1_1AbstractTask")
        ⨾ entry "Task" (some "classAsyncFw_1_1Task.html") (script "classAsyncFw_1_1Task")
        ⨾ entry "AbstractThreadPool" (some "classAsyncFw_1_1AbstractThreadPool.html")
            (script "classAsyncFw_1_1AbstractThreadPool")
        ⨾ entry "ThreadPool" (some "classAsyncFw_1_1ThreadPool.html")
            (script "classAsyncFw_1_1ThreadPool")
        ⨾ entry "Timer" (some "classAsyncFw_1_1Timer.html") (script "classAsyncFw_1_1Timer")
        ⨾ entry "Version" (some "structAsyncFw_1_1Version.html") leaf
        ⨾ end))
    ⨾ end

unfoldable pub dir_4270bfced15e0e73154b13468c7c9ad9 : Entries
dir_4270bfced15e0e73154b13468c7c9ad9 =
    entry "AbstractSocket.h" (some "AbstractSocket_8h.html") (script "AbstractSocket_8h")
    ⨾ entry "AbstractThread.h" (some "AbstractThread_8h.html") (script "AbstractThread_8h")
    ⨾ entry "AbstractTlsSocket.h" (some "AbstractTlsSocket_8h.html") (script "AbstractTlsSocket_8h")
    ⨾ entry "AnyData.h" (some "AnyData_8h.html") (script "AnyData_8h")
    ⨾ entry "console_msg.hpp" (some "console__msg_8hpp_source.html") leaf
    ⨾ entry "DataArray.h" (some "DataArray_8h.html") (script "DataArray_8h")
    ⨾ entry "extend_trace.hpp" (some "extend__trace_8hpp_source.html") leaf
    ⨾ entry "FunctionConnector.h" (some "FunctionConnector_8h.html") (script "FunctionConnector_8h")
    ⨾ entry "invocable.hpp" (some "invocable_8hpp_source.html") leaf
    ⨾ entry "LogStream.h" (some "LogStream_8h.html") (script "LogStream_8h")
    ⨾ entry "Thread.h" (some "Thread_8h.html") (script "Thread_8h")
    ⨾ entry "TlsContext.h" (some "TlsContext_8h.html") (script "TlsContext_8h")
    ⨾ end

unfoldable pub dir_5c982d53a68cdbcd421152b4020263a9 : Entries
dir_5c982d53a68cdbcd421152b4020263a9 =
    entry "AddressResolver.h" (some "AddressResolver_8h.html") (script "AddressResolver_8h")
    ⨾ entry "ApplicationNotifier.h" (some "ApplicationNotifier_8h.html")
        (script "ApplicationNotifier_8h")
    ⨾ entry "Coroutine.h" (some "Coroutine_8h.html") (script "Coroutine_8h")
    ⨾ entry "Cryptor.h" (some "Cryptor_8h.html") (script "Cryptor_8h")
    ⨾ entry "DataArrayAbstractTcp.h" (some "DataArrayAbstractTcp_8h.html")
        (script "DataArrayAbstractTcp_8h")
    ⨾ entry "DataArraySocket.h" (some "DataArraySocket_8h.html") (script "DataArraySocket_8h")
    ⨾ entry "DataArrayTcpClient.h" (some "DataArrayTcpClient_8h.html")
        (script "DataArrayTcpClient_8h")
    ⨾ entry "DataArrayTcpServer.h" (some "DataArrayTcpServer_8h.html")
        (script "DataArrayTcpServer_8h")
    ⨾ entry "File.h" (some "File_8h.html") (script "File_8h")
    ⨾ entry "FileSystemWatcher.h" (some "FileSystemWatcher_8h.html") (script "FileSystemWatcher_8h")
    ⨾ entry "HttpServer.h" (some "HttpServer_8h.html") (script "HttpServer_8h")
    ⨾ entry "HttpSocket.h" (some "HttpSocket_8h.html") (script "HttpSocket_8h")
    ⨾ entry "Instance.h" (some "Instance_8h.html") (script "Instance_8h")
    ⨾ entry "ListenSocket.h" (some "ListenSocket_8h.html") (script "ListenSocket_8h")
    ⨾ entry "log-types.hpp" (some "log-types_8hpp_source.html") leaf
    ⨾ entry "Log.h" (some "Log_8h.html") (script "Log_8h")
    ⨾ entry "MainThread.h" (some "MainThread_8h.html") (script "MainThread_8h")
    ⨾ entry "mdns-types.h" (some "mdns-types_8h_source.html") leaf
    ⨾ entry "MulticastDns.h" (some "MulticastDns_8h.html") (script "MulticastDns_8h")
    ⨾ entry "PollNotifier.h" (some "PollNotifier_8h.html") (script "PollNotifier_8h")
    ⨾ entry "Rrd.h" (some "Rrd_8h.html") (script "Rrd_8h")
    ⨾ entry "RrdClient.h" (some "RrdClient_8h.html") (script "RrdClient_8h")
    ⨾ entry "RrdServer.h" (some "RrdServer_8h.html") (script "RrdServer_8h")
    ⨾ entry "SystemProcess.h" (some "SystemProcess_8h.html") (script "SystemProcess_8h")
    ⨾ entry "Task.h" (some "Task_8h.html") (script "Task_8h")
    ⨾ entry "ThreadPool.h" (some "ThreadPool_8h.html") (script "ThreadPool_8h")
    ⨾ entry "Timer.h" (some "Timer_8h.html") (script "Timer_8h")
    ⨾ entry "Version.h" (some "Version_8h.html") (script "Version_8h")
    ⨾ end
