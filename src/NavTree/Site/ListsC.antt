-- ===== src/NavTree/Site/ListsC.antt =====
-- The other lists that the site loads on demand, docs/*.js.
use async_fw.Base.{some}
use async_fw.NavTree.Entries.{entry, leaf, script, items, Entries, end, ◌⨾◌}

unfoldable pub hierarchy : Entries
hierarchy =
    entry "AsyncFw::AbstractFunctionConnector"
      (some "classAsyncFw_1_1AbstractFunctionConnector.html") leaf
    ⨾ entry "AsyncFw::AbstractInstance" (some "classAsyncFw_1_1AbstractInstance.html") (
        items (
          entry "AsyncFw::Instance< Log >" (some "classAsyncFw_1_1Instance.html") leaf
          ⨾ entry "AsyncFw::Instance< AsyncFw::ApplicationNotifier >"
              (some "classAsyncFw_1_1Instance.html") leaf
          ⨾ entry "AsyncFw::Instance< AsyncFw::FileSystemWatcher >"
              (some "classAsyncFw_1_1Instance.html") leaf
          ⨾ entry "AsyncFw::Instance< AsyncFw::HttpServer >" (some "classAsyncFw_1_1Instance.html")
              leaf
          ⨾ entry "AsyncFw::Instance< AsyncFw::MulticastDns >"
              (some "classAsyncFw_1_1Instance.html") leaf
          ⨾ entry "AsyncFw::Instance< AsyncFw::ThreadPool >" (some "classAsyncFw_1_1Instance.html")
              leaf
          ⨾ entry "AsyncFw::Instance< T >" (some "classAsyncFw_1_1Instance.html") leaf
          ⨾ end))
    ⨾ entry "AsyncFw::AbstractLog" (some "classAsyncFw_1_1AbstractLog.html")
        (items (entry "AsyncFw::Log" (some "classAsyncFw_1_1Log.html") leaf ⨾ end))
    ⨾ entry "AsyncFw::AbstractThread" (some "classAsyncFw_1_1AbstractThread.html") (
        items (
          entry "AsyncFw::Thread" (some "classAsyncFw_1_1Thread.html") (
            items (
              entry "AsyncFw::AbstractThreadPool::Thread"
                (some "classAsyncFw_1_1AbstractThreadPool_1_1Thread.html")
                (items (
                  entry "AsyncFw::DataArrayAbstractTcp::Thread"
                    (some "classAsyncFw_1_1DataArrayAbstractTcp_1_1Thread.html")
                    (items (
                      entry "AsyncFw::DataArrayTcpClient::Thread"
                        (some "classAsyncFw_1_1DataArrayTcpClient_1_1Thread.html") leaf
                      ⨾ end))
                  ⨾ end))
              ⨾ entry "AsyncFw::MainThread" (some "classAsyncFw_1_1MainThread.html") leaf
              ⨾ end))
          ⨾ end))
    ⨾ entry "AsyncFw::AbstractThreadPool" (some "classAsyncFw_1_1AbstractThreadPool.html") (
        items (
          entry "AsyncFw::DataArrayAbstractTcp" (some "classAsyncFw_1_1DataArrayAbstractTcp.html") (
            items (
              entry "AsyncFw::DataArrayTcpClient" (some "classAsyncFw_1_1DataArrayTcpClient.html")
                leaf
              ⨾ entry "AsyncFw::DataArrayTcpServer" (some "classAsyncFw_1_1DataArrayTcpServer.html")
                  leaf
              ⨾ end))
          ⨾ entry "AsyncFw::ThreadPool" (some "classAsyncFw_1_1ThreadPool.html") leaf
          ⨾ end))
    ⨾ entry "AsyncFw::AddressResolver" (some "classAsyncFw_1_1AddressResolver.html") leaf
    ⨾ entry "AsyncFw::AnyData" (some "structAsyncFw_1_1AnyData.html") (
        items (
          entry "AsyncFw::AbstractSocket" (some "classAsyncFw_1_1AbstractSocket.html") (
            items (
              entry "AsyncFw::AbstractTlsSocket" (some "classAsyncFw_1_1AbstractTlsSocket.html") (
                items (
                  entry "AsyncFw::DataArraySocket" (some "classAsyncFw_1_1DataArraySocket.html")
                    leaf
                  ⨾ entry "AsyncFw::HttpSocket" (some "classAsyncFw_1_1HttpSocket.html") (
                      items (
                        entry "AsyncFw::HttpServer::TcpSocket"
                          (some "classAsyncFw_1_1HttpServer_1_1TcpSocket.html") leaf
                        ⨾ end))
                  ⨾ end))
              ⨾ entry "AsyncFw::ListenSocket" (some "classAsyncFw_1_1ListenSocket.html") leaf
              ⨾ end))
          ⨾ entry "AsyncFw::AbstractTask" (some "classAsyncFw_1_1AbstractTask.html")
              (items (entry "AsyncFw::Task< F >" (some "classAsyncFw_1_1Task.html") leaf ⨾ end))
          ⨾ entry "AsyncFw::ApplicationNotifier::Value"
              (some "structAsyncFw_1_1ApplicationNotifier_1_1Value.html") leaf
          ⨾ entry "AsyncFw::CoroutineTask::promise_type"
              (some "structAsyncFw_1_1CoroutineTask_1_1promise__type.html") leaf
          ⨾ end))
    ⨾ entry "AsyncFw::ApplicationNotifier" (some "classAsyncFw_1_1ApplicationNotifier.html") leaf
    ⨾ entry "AsyncFw::AbstractFunctionConnector::Connection"
        (some "classAsyncFw_1_1AbstractFunctionConnector_1_1Connection.html") leaf
    ⨾ entry "AsyncFw::CoroutineAwait&lt; R &gt;" (some "structAsyncFw_1_1CoroutineAwait.html") leaf
    ⨾ entry "AsyncFw::CoroutineInvokeAwait&lt; T &gt;"
        (some "structAsyncFw_1_1CoroutineInvokeAwait.html") leaf
    ⨾ entry "AsyncFw::CoroutineTask" (some "structAsyncFw_1_1CoroutineTask.html") leaf
    ⨾ entry "AsyncFw::Cryptor" (some "classAsyncFw_1_1Cryptor.html") leaf
    ⨾ entry "AsyncFw::DataArray" (some "classAsyncFw_1_1DataArray.html") leaf
    ⨾ entry "AsyncFw::DataArrayList" (some "classAsyncFw_1_1DataArrayList.html") leaf
    ⨾ entry "AsyncFw::DataArrayView" (some "classAsyncFw_1_1DataArrayView.html") leaf
    ⨾ entry "AsyncFw::DataStream" (some "classAsyncFw_1_1DataStream.html") leaf
    ⨾ entry "AsyncFw::File" (some "classAsyncFw_1_1File.html") leaf
    ⨾ entry "AsyncFw::FileSystemWatcher" (some "classAsyncFw_1_1FileSystemWatcher.html") leaf
    ⨾ entry "AsyncFw::FunctionConnectionGuard" (some "classAsyncFw_1_1FunctionConnectionGuard.html")
        leaf
    ⨾ entry "AsyncFw::FunctionConnectionGuardList"
        (some "classAsyncFw_1_1FunctionConnectionGuardList.html") leaf
    ⨾ entry "AsyncFw::MulticastDns::Host" (some "structAsyncFw_1_1MulticastDns_1_1Host.html") leaf
    ⨾ entry "AsyncFw::HttpServer" (some "classAsyncFw_1_1HttpServer.html") leaf
    ⨾ entry "AsyncFw::LogStream" (some "classAsyncFw_1_1LogStream.html") leaf
    ⨾ entry "AsyncFw::LogStream::Message" (some "structAsyncFw_1_1LogStream_1_1Message.html") leaf
    ⨾ entry "AsyncFw::MulticastDns" (some "classAsyncFw_1_1MulticastDns.html") leaf
    ⨾ entry "AsyncFw::PollNotifier" (some "classAsyncFw_1_1PollNotifier.html") leaf
    ⨾ entry "AsyncFw::HttpServer::Request" (some "classAsyncFw_1_1HttpServer_1_1Request.html") leaf
    ⨾ entry "AsyncFw::HttpServer::Response" (some "classAsyncFw_1_1HttpServer_1_1Response.html")
        leaf
    ⨾ entry "AsyncFw::Rrd" (some "classAsyncFw_1_1Rrd.html")
        (items (entry "AsyncFw::Log" (some "classAsyncFw_1_1Log.html") leaf ⨾ end))
    ⨾ entry "AsyncFw::RrdClient" (some "classAsyncFw_1_1RrdClient.html") leaf
    ⨾ entry "AsyncFw::RrdServer" (some "classAsyncFw_1_1RrdServer.html") leaf
    ⨾ entry "AsyncFw::SystemProcess" (some "classAsyncFw_1_1SystemProcess.html") leaf
    ⨾ entry "AsyncFw::Timer" (some "classAsyncFw_1_1Timer.html") leaf
    ⨾ entry "AsyncFw::TlsContext" (some "classAsyncFw_1_1TlsContext.html") leaf
    ⨾ entry "AsyncFw::Version" (some "structAsyncFw_1_1Version.html") leaf
    ⨾ entry "AsyncFw::AbstractThread::Waiter" (some "classAsyncFw_1_1AbstractThread_1_1Waiter.html")
        leaf
    ⨾ end

unfoldable pub struct_any_data : Entries
struct_any_data =
    entry "AnyData" (some "structAsyncFw_1_1AnyData.html#a667ea182dec03e9ca81e86cdc7db8842") leaf
    ⨾ entry "~AnyData" (some "structAsyncFw_1_1AnyData.html#a6d5534e474c91c9e0760eb80e8fdeda8") leaf
    ⨾ entry "data" (some "structAsyncFw_1_1AnyData.html#aa6d2c3488a44e34e25a0971b01a27b3c") leaf
    ⨾ entry "data" (some "structAsyncFw_1_1AnyData.html#a9d604c8e053676ded700990eae9ff67f") leaf
    ⨾ entry "setData" (some "structAsyncFw_1_1AnyData.html#af4204174192d3b8c2f83dda18366a953") leaf
    ⨾ entry "empty" (some "structAsyncFw_1_1AnyData.html#aebf00018fdebd3ad5e628f349f09f0e2") leaf
    ⨾ entry "data_" (some "structAsyncFw_1_1AnyData.html#adc2b97818be013fcf912ca9c8e086fa3") leaf
    ⨾ end

unfoldable pub struct_coroutine_task : Entries
struct_coroutine_task =
    entry "promise_type" (some "structAsyncFw_1_1CoroutineTask_1_1promise__type.html")
      (script "structAsyncFw_1_1CoroutineTask_1_1promise__type")
    ⨾ entry "finished"
        (some "structAsyncFw_1_1CoroutineTask.html#a2a9141689d60da24339465aa0d225a27") leaf
    ⨾ entry "wait" (some "structAsyncFw_1_1CoroutineTask.html#a820a0a3410c4a14a71ad3599f46c1bb0")
        leaf
    ⨾ end

unfoldable pub struct_coroutine_task_promise_type : Entries
struct_coroutine_task_promise_type =
    entry "resume_queued"
      (some
        "structAsyncFw_1_1CoroutineTask_1_1promise__type.html#a6ef8c84c53068677172b21f5e08aa0b7")
      leaf
    ⨾ end

unfoldable pub struct_log_stream_message : Entries
struct_log_stream_message =
    entry "time"
      (some "structAsyncFw_1_1LogStream_1_1Message.html#afbf65018f5c11d8d8204a0b47cee4207") leaf
    ⨾ entry "type"
        (some "structAsyncFw_1_1LogStream_1_1Message.html#a4b2b2b0ff46ffb2a1f949f4953b34895") leaf
    ⨾ entry "name"
        (some "structAsyncFw_1_1LogStream_1_1Message.html#af6373a2f7362ff25d5341e5c373e1554") leaf
    ⨾ entry "string"
        (some "structAsyncFw_1_1LogStream_1_1Message.html#a7d55dbc7e3fd3c5b106977df3ca2bbbb") leaf
    ⨾ entry "note"
        (some "structAsyncFw_1_1LogStream_1_1Message.html#abac2923c4b2c7076a731b88df2420fa5") leaf
    ⨾ end
