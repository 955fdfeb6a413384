-- ===== src/NavTree/Site/HeadersA.antt =====
-- The lists of contents that the site loads for a header file, docs/*_8h.js.
use async_fw.Base.{some}
use async_fw.NavTree.Entries.{entry, leaf, script, Entries, end, ◌⨾◌}

unfoldable pub abstract_socket_h : Entries
abstract_socket_h =
    entry "AsyncFw::AbstractSocket" (some "classAsyncFw_1_1AbstractSocket.html")
      (script "classAsyncFw_1_1AbstractSocket")
    ⨾ end

unfoldable pub abstract_thread_h : Entries
abstract_thread_h =
    entry "AsyncFw::AbstractThread" (some "classAsyncFw_1_1AbstractThread.html")
      (script "classAsyncFw_1_1AbstractThread")
    ⨾ entry "AsyncFw::AbstractThread::Waiter" (some "classAsyncFw_1_1AbstractThread_1_1Waiter.html")
        (script "classAsyncFw_1_1AbstractThread_1_1Waiter")
    ⨾ end

unfoldable pub abstract_tls_socket_h : Entries
abstract_tls_socket_h =
    entry "AsyncFw::AbstractTlsSocket" (some "classAsyncFw_1_1AbstractTlsSocket.html")
      (script "classAsyncFw_1_1AbstractTlsSocket")
    ⨾ end

unfoldable pub address_resolver_h : Entries
address_resolver_h =
    entry "AsyncFw::AddressResolver" (some "classAsyncFw_1_1AddressResolver.html")
      (script "classAsyncFw_1_1AddressResolver")
    ⨾ end

unfoldable pub any_data_h : Entries
any_data_h =
    entry "AsyncFw::AnyData" (some "structAsyncFw_1_1AnyData.html")
      (script "structAsyncFw_1_1AnyData")
    ⨾ end

unfoldable pub application_notifier_h : Entries
application_notifier_h =
    entry "AsyncFw::ApplicationNotifier" (some "classAsyncFw_1_1ApplicationNotifier.html")
      (script "classAsyncFw_1_1ApplicationNotifier")
    ⨾ entry "AsyncFw::ApplicationNotifier::Value"
        (some "structAsyncFw_1_1ApplicationNotifier_1_1Value.html") leaf
    ⨾ end

unfoldable pub coroutine_h : Entries
coroutine_h =
    entry "AsyncFw::CoroutineTask" (some "structAsyncFw_1_1CoroutineTask.html")
      (script "structAsyncFw_1_1CoroutineTask")
    ⨾ entry "AsyncFw::CoroutineTask::promise_type"
        (some "structAsyncFw_1_1CoroutineTask_1_1promise__type.html")
        (script "structAsyncFw_1_1CoroutineTask_1_1promise__type")
    ⨾ entry "AsyncFw::CoroutineAwait&lt; R &gt;" (some "structAsyncFw_1_1CoroutineAwait.html") leaf
    ⨾ entry "AsyncFw::coInvoke"
        (some "group__coroutine__api.html#ga0005f3892c4f008098e0ee2634481d5a") leaf
    ⨾ entry "AsyncFw::coInvoke"
        (some "group__coroutine__api.html#gad114e5309a86890f0fa504ff94f3edef") leaf
    ⨾ entry "AsyncFw::coInvoke"
        (some "group__coroutine__api.html#ga36873f186789bdcd404e10d179081bc4") leaf
    ⨾ entry "AsyncFw::coInvoke"
        (some "group__coroutine__api.html#ga4000deb9d729812b431fc3345fca5eba") leaf
    ⨾ end

unfoldable pub cryptor_h : Entries
cryptor_h = entry "AsyncFw::Cryptor" (some "classAsyncFw_1_1Cryptor.html") leaf ⨾ end

unfoldable pub data_array_abstract_tcp_h : Entries
data_array_abstract_tcp_h =
    entry "AsyncFw::DataArrayAbstractTcp" (some "classAsyncFw_1_1DataArrayAbstractTcp.html")
      (script "classAsyncFw_1_1DataArrayAbstractTcp")
    ⨾ entry "AsyncFw::DataArrayAbstractTcp::Thread"
        (some "classAsyncFw_1_1DataArrayAbstractTcp_1_1Thread.html")
        (script "classAsyncFw_1_1DataArrayAbstractTcp_1_1Thread")
    ⨾ end

unfoldable pub data_array_socket_h : Entries
data_array_socket_h =
    entry "AsyncFw::DataArraySocket" (some "classAsyncFw_1_1DataArraySocket.html")
      (script "classAsyncFw_1_1DataArraySocket")
    ⨾ end

unfoldable pub data_array_tcp_client_h : Entries
data_array_tcp_client_h =
    entry "AsyncFw::DataArrayTcpClient" (some "classAsyncFw_1_1DataArrayTcpClient.html")
      (script "classAsyncFw_1_1DataArrayTcpClient")
    ⨾ entry "AsyncFw::DataArrayTcpClient::Thread"
        (some "classAsyncFw_1_1DataArrayTcpClient_1_1Thread.html")
        (script "classAsyncFw_1_1DataArrayTcpClient_1_1Thread")
    ⨾ end

unfoldable pub data_array_tcp_server_h : Entries
data_array_tcp_server_h =
    entry "AsyncFw::DataArrayTcpServer" (some "classAsyncFw_1_1DataArrayTcpServer.html")
      (script "classAsyncFw_1_1DataArrayTcpServer")
    ⨾ end

unfoldable pub data_array_h : Entries
data_array_h =
    entry "AsyncFw::DataArray" (some "classAsyncFw_1_1DataArray.html")
      (script "classAsyncFw_1_1DataArray")
    ⨾ entry "AsyncFw::DataArrayView" (some "classAsyncFw_1_1DataArrayView.html")
        (script "classAsyncFw_1_1DataArrayView")
    ⨾ entry "AsyncFw::DataArrayList" (some "classAsyncFw_1_1DataArrayList.html")
        (script "classAsyncFw_1_1DataArrayList")
    ⨾ entry "AsyncFw::DataStream" (some "classAsyncFw_1_1DataStream.html")
        (script "classAsyncFw_1_1DataStream")
    ⨾ end

unfoldable pub file_system_watcher_h : Entries
file_system_watcher_h =
    entry "AsyncFw::FileSystemWatcher" (some "classAsyncFw_1_1FileSystemWatcher.html")
      (script "classAsyncFw_1_1FileSystemWatcher")
    ⨾ end

unfoldable pub file_h : Entries
file_h =
    entry "AsyncFw::File" (some "classAsyncFw_1_1File.html") (script "classAsyncFw_1_1File") ⨾ end

unfoldable pub function_connector_h : Entries
function_connector_h =
    entry "AsyncFw::AbstractFunctionConnector"
      (some "classAsyncFw_1_1AbstractFunctionConnector.html")
      (script "classAsyncFw_1_1AbstractFunctionConnector")
    ⨾ entry "AsyncFw::AbstractFunctionConnector::Connection"
        (some "classAsyncFw_1_1AbstractFunctionConnector_1_1Connection.html")
        (script "classAsyncFw_1_1AbstractFunctionConnector_1_1Connection")
    ⨾ entry "AsyncFw::FunctionConnector&lt; Args &gt;"
        (some "classAsyncFw_1_1FunctionConnector.html") (script "classAsyncFw_1_1FunctionConnector")
    ⨾ entry "AsyncFw::FunctionConnector&lt; Args &gt;::Policy&lt; P &gt;"
        (some "structAsyncFw_1_1FunctionConnector_1_1Policy.html") leaf
    ⨾ entry "AsyncFw::FunctionConnectionGuard" (some "classAsyncFw_1_1FunctionConnectionGuard.html")
        (script "classAsyncFw_1_1FunctionConnectionGuard")
    ⨾ entry "AsyncFw::FunctionConnectionGuardList"
        (some "classAsyncFw_1_1FunctionConnectionGuardList.html")
        (script "classAsyncFw_1_1FunctionConnectionGuardList")
    ⨾ end

unfoldable pub http_server_h : Entries
http_server_h =
    entry "AsyncFw::HttpServer" (some "classAsyncFw_1_1HttpServer.html")
      (script "classAsyncFw_1_1HttpServer")
    ⨾ entry "AsyncFw::HttpServer::TcpSocket" (some "classAsyncFw_1_1HttpServer_1_1TcpSocket.html")
        (script "classAsyncFw_1_1HttpServer_1_1TcpSocket")
    ⨾ entry "AsyncFw::HttpServer::Response" (some "classAsyncFw_1_1HttpServer_1_1Response.html")
        (script "classAsyncFw_1_1HttpServer_1_1Response")
    ⨾ entry "AsyncFw::HttpServer::Request" (some "classAsyncFw_1_1HttpServer_1_1Request.html")
        (script "classAsyncFw_1_1HttpServer_1_1Request")
    ⨾ end

unfoldable pub http_socket_h : Entries
http_socket_h =
    entry "AsyncFw::HttpSocket" (some "classAsyncFw_1_1HttpSocket.html")
      (script "classAsyncFw_1_1HttpSocket")
    ⨾ end

unfoldable pub instance_h : Entries
instance_h =
    entry "AsyncFw::AbstractInstance" (some "classAsyncFw_1_1AbstractInstance.html")
      (script "classAsyncFw_1_1AbstractInstance")
    ⨾ entry "AsyncFw::Instance&lt; T &gt;" (some "classAsyncFw_1_1Instance.html")
        (script "classAsyncFw_1_1Instance")
    ⨾ end
