-- ===== src/NavTree/Site/HeadersB.antt =====
-- The lists of contents that the site loads for a header file, docs/*_8h.js.
use async_fw.Base.{some}
use async_fw.NavTree.Entries.{entry, leaf, script, Entries, end, ◌⨾◌}

unfoldable pub listen_socket_h : Entries
listen_socket_h =
    entry "AsyncFw::ListenSocket" (some "classAsyncFw_1_1ListenSocket.html")
      (script "classAsyncFw_1_1ListenSocket")
    ⨾ end

unfoldable pub log_stream_h : Entries
log_stream_h =
    entry "AsyncFw::LogStream" (some "classAsyncFw_1_1LogStream.html")
      (script "classAsyncFw_1_1LogStream")
    ⨾ entry "AsyncFw::LogStream::Message" (some "structAsyncFw_1_1LogStream_1_1Message.html")
        (script "structAsyncFw_1_1LogStream_1_1Message")
    ⨾ end

unfoldable pub log_h : Entries
log_h =
    entry "AsyncFw::AbstractLog" (some "classAsyncFw_1_1AbstractLog.html")
      (script "classAsyncFw_1_1AbstractLog")
    ⨾ entry "AsyncFw::Log" (some "classAsyncFw_1_1Log.html") (script "classAsyncFw_1_1Log")
    ⨾ end

unfoldable pub main_thread_h : Entries
main_thread_h = entry "AsyncFw::MainThread" (some "classAsyncFw_1_1MainThread.html") leaf ⨾ end

unfoldable pub multicast_dns_h : Entries
multicast_dns_h =
    entry "AsyncFw::MulticastDns" (some "classAsyncFw_1_1MulticastDns.html")
      (script "classAsyncFw_1_1MulticastDns")
    ⨾ entry "AsyncFw::MulticastDns::Host" (some "structAsyncFw_1_1MulticastDns_1_1Host.html")
        (script "structAsyncFw_1_1MulticastDns_1_1Host")
    ⨾ end

unfoldable pub poll_notifier_h : Entries
poll_notifier_h =
    entry "AsyncFw::PollNotifier" (some "classAsyncFw_1_1PollNotifier.html")
      (script "classAsyncFw_1_1PollNotifier")
    ⨾ end

unfoldable pub rrd_client_h : Entries
rrd_client_h =
    entry "AsyncFw::RrdClient" (some "classAsyncFw_1_1RrdClient.html")
      (script "classAsyncFw_1_1RrdClient")
    ⨾ end

unfoldable pub rrd_server_h : Entries
rrd_server_h =
    entry "AsyncFw::RrdServer" (some "classAsyncFw_1_1RrdServer.html")
      (script "classAsyncFw_1_1RrdServer")
    ⨾ end

unfoldable pub rrd_h : Entries
rrd_h = entry "AsyncFw::Rrd" (some "classAsyncFw_1_1Rrd.html") (script "classAsyncFw_1_1Rrd") ⨾ end

unfoldable pub system_process_h : Entries
system_process_h =
    entry "AsyncFw::SystemProcess" (some "classAsyncFw_1_1SystemProcess.html")
      (script "classAsyncFw_1_1SystemProcess")
    ⨾ end

unfoldable pub task_h : Entries
task_h =
    entry "AsyncFw::AbstractTask" (some "classAsyncFw_1_1AbstractTask.html")
      (script "classAsyncFw_1_1AbstractTask")
    ⨾ entry "AsyncFw::Task&lt; F &gt;" (some "classAsyncFw_1_1Task.html")
        (script "classAsyncFw_1_1Task")
    ⨾ end

unfoldable pub thread_pool_h : Entries
thread_pool_h =
    entry "AsyncFw::AbstractThreadPool" (some "classAsyncFw_1_1AbstractThreadPool.html")
      (script "classAsyncFw_1_1AbstractThreadPool")
    ⨾ entry "AsyncFw::AbstractThreadPool::Thread"
        (some "classAsyncFw_1_1AbstractThreadPool_1_1Thread.html")
        (script "classAsyncFw_1_1AbstractThreadPool_1_1Thread")
    ⨾ entry "AsyncFw::ThreadPool" (some "classAsyncFw_1_1ThreadPool.html")
        (script "classAsyncFw_1_1ThreadPool")
    ⨾ end

unfoldable pub thread_h : Entries
thread_h =
    entry "AsyncFw::Thread" (some "classAsyncFw_1_1Thread.html") (script "classAsyncFw_1_1Thread")
    ⨾ end

unfoldable pub timer_h : Entries
timer_h =
    entry "AsyncFw::Timer" (some "classAsyncFw_1_1Timer.html") (script "classAsyncFw_1_1Timer")
    ⨾ entry "AsyncFw::coTimeout"
        (some "group__coroutine__api.html#ga37b3a970310b55e69ed1cb7aa9ab3646") leaf
    ⨾ end

unfoldable pub tls_context_h : Entries
tls_context_h =
    entry "AsyncFw::TlsContext" (some "classAsyncFw_1_1TlsContext.html")
      (script "classAsyncFw_1_1TlsContext")
    ⨾ end

unfoldable pub version_h : Entries
version_h = entry "AsyncFw::Version" (some "structAsyncFw_1_1Version.html") leaf ⨾ end
