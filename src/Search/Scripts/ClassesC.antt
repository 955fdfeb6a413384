-- ===== src/Search/Scripts/ClassesC.antt =====
-- docs/search/classes_5.js to docs/search/classes_d.js: entries of the search.
use async_fw.Base.{true, List, [], ◌∷◌}
use async_fw.Search.Results.{Found}
use async_fw.Search.Scripts.Entry.{hit, found}

unfoldable pub classes_5 : List Found
classes_5 =
    found "instance_0" "Instance" (hit "../classAsyncFw_1_1Instance.html" true "AsyncFw" ∷ [])
    ∷ found "instance_3c_20asyncfw_3a_3aapplicationnotifier_20_3e_1"
        "Instance&lt; AsyncFw::ApplicationNotifier &gt;"
        (hit "../classAsyncFw_1_1Instance.html" true "AsyncFw" ∷ [])
    ∷ found "instance_3c_20asyncfw_3a_3afilesystemwatcher_20_3e_2"
        "Instance&lt; AsyncFw::FileSystemWatcher &gt;"
        (hit "../classAsyncFw_1_1Instance.html" true "AsyncFw" ∷ [])
    ∷ found "instance_3c_20asyncfw_3a_3ahttpserver_20_3e_3" "Instance&lt; AsyncFw::HttpServer &gt;"
        (hit "../classAsyncFw_1_1Instance.html" true "AsyncFw" ∷ [])
    ∷ found "instance_3c_20asyncfw_3a_3amulticastdns_20_3e_4"
        "Instance&lt; AsyncFw::MulticastDns &gt;"
        (hit "../classAsyncFw_1_1Instance.html" true "AsyncFw" ∷ [])
    ∷ found "instance_3c_20asyncfw_3a_3athreadpool_20_3e_5" "Instance&lt; AsyncFw::ThreadPool &gt;"
        (hit "../classAsyncFw_1_1Instance.html" true "AsyncFw" ∷ [])
    ∷ found "instance_3c_20log_20_3e_6" "Instance&lt; Log &gt;"
        (hit "../classAsyncFw_1_1Instance.html" true "AsyncFw" ∷ [])
    ∷ []

unfoldable pub classes_6 : List Found
classes_6 =
    found "listensocket_0" "ListenSocket"
      (hit "../classAsyncFw_1_1ListenSocket.html" true "AsyncFw" ∷ [])
    ∷ found "log_1" "Log" (hit "../classAsyncFw_1_1Log.html" true "AsyncFw" ∷ [])
    ∷ found "logstream_2" "LogStream" (hit "../classAsyncFw_1_1LogStream.html" true "AsyncFw" ∷ [])
    ∷ []

unfoldable pub classes_7 : List Found
classes_7 =
    found "mainthread_0" "MainThread" (hit "../classAsyncFw_1_1MainThread.html" true "AsyncFw" ∷ [])
    ∷ found "message_1" "Message"
        (hit "../structAsyncFw_1_1LogStream_1_1Message.html" true "AsyncFw::LogStream" ∷ [])
    ∷ found "multicastdns_2" "MulticastDns"
        (hit "../classAsyncFw_1_1MulticastDns.html" true "AsyncFw" ∷ [])
    ∷ []

unfoldable pub classes_8 : List Found
classes_8 =
    found "policy_0" "Policy" (
      hit "../structAsyncFw_1_1FunctionConnector_1_1Policy.html" true "AsyncFw::FunctionConnector"
      ∷ [])
    ∷ found "pollnotifier_1" "PollNotifier"
        (hit "../classAsyncFw_1_1PollNotifier.html" true "AsyncFw" ∷ [])
    ∷ found "promise_5ftype_2" "promise_type" (
        hit "../structAsyncFw_1_1CoroutineTask_1_1promise__type.html" true "AsyncFw::CoroutineTask"
        ∷ [])
    ∷ []

unfoldable pub classes_9 : List Found
classes_9 =
    found "request_0" "Request"
      (hit "../classAsyncFw_1_1HttpServer_1_1Request.html" true "AsyncFw::HttpServer" ∷ [])
    ∷ found "response_1" "Response"
        (hit "../classAsyncFw_1_1HttpServer_1_1Response.html" true "AsyncFw::HttpServer" ∷ [])
    ∷ found "rrd_2" "Rrd" (hit "../classAsyncFw_1_1Rrd.html" true "AsyncFw" ∷ [])
    ∷ found "rrdclient_3" "RrdClient" (hit "../classAsyncFw_1_1RrdClient.html" true "AsyncFw" ∷ [])
    ∷ found "rrdserver_4" "RrdServer" (hit "../classAsyncFw_1_1RrdServer.html" true "AsyncFw" ∷ [])
    ∷ []

unfoldable pub classes_a : List Found
classes_a =
    found "systemprocess_0" "SystemProcess"
      (hit "../classAsyncFw_1_1SystemProcess.html" true "AsyncFw" ∷ [])
    ∷ []

unfoldable pub classes_b : List Found
classes_b =
    found "task_0" "Task" (hit "../classAsyncFw_1_1Task.html" true "AsyncFw" ∷ [])
    ∷ found "tcpsocket_1" "TcpSocket"
        (hit "../classAsyncFw_1_1HttpServer_1_1TcpSocket.html" true "AsyncFw::HttpServer" ∷ [])
    ∷ found "thread_2" "Thread" (
        hit "../classAsyncFw_1_1AbstractThreadPool_1_1Thread.html" true
          "AsyncFw::AbstractThreadPool::Thread"
        ∷ hit "../classAsyncFw_1_1DataArrayAbstractTcp_1_1Thread.html" true
            "AsyncFw::DataArrayAbstractTcp::Thread"
        ∷ hit "../classAsyncFw_1_1DataArrayTcpClient_1_1Thread.html" true
            "AsyncFw::DataArrayTcpClient::Thread"
        ∷ hit "../classAsyncFw_1_1Thread.html" true "AsyncFw::Thread"
        ∷ [])
    ∷ found "threadpool_3" "ThreadPool"
        (hit "../classAsyncFw_1_1ThreadPool.html" true "AsyncFw" ∷ [])
    ∷ found "timer_4" "Timer" (hit "../classAsyncFw_1_1Timer.html" true "AsyncFw" ∷ [])
    ∷ found "tlscontext_5" "TlsContext"
        (hit "../classAsyncFw_1_1TlsContext.html" true "AsyncFw" ∷ [])
    ∷ []

unfoldable pub classes_c : List Found
classes_c =
    found "value_0" "Value" (
      hit "../structAsyncFw_1_1ApplicationNotifier_1_1Value.html" true
        "AsyncFw::ApplicationNotifier"
      ∷ [])
    ∷ found "version_1" "Version" (hit "../structAsyncFw_1_1Version.html" true "AsyncFw" ∷ [])
    ∷ []

unfoldable pub classes_d : List Found
classes_d =
    found "waiter_0" "Waiter"
      (hit "../classAsyncFw_1_1AbstractThread_1_1Waiter.html" true "AsyncFw::AbstractThread" ∷ [])
    ∷ []
