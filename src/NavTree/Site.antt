-- ===== src/NavTree/Site.antt =====
-- The data of the site as its scripts hold it: the tree, what it loads on demand, and the index.
mod HeadersA
mod HeadersB
mod ListsA
mod ListsB
mod ListsC
mod ListsD
mod ClassesA
mod ClassesB
mod ClassesC
mod ClassesD
mod ClassesE
mod ClassesF
mod ClassesG
mod ClassesH
mod Root
mod Shard0A
mod Shard0B
mod Shard0C
mod Shard0D
mod Shard1A
mod Shard1B
mod Shard1C
mod Shard1D
mod Shard2A
mod Shard2B
mod Shard2C
mod Shard2D
use Prim.Native.String.{String}
use async_fw.Base.{ℕ, List, [], ◌∷◌, ◌++◌}
use async_fw.NavTree.Entries.{Entries}
use HeadersA.{
  abstract_socket_h, abstract_thread_h, abstract_tls_socket_h, address_resolver_h, any_data_h,
  application_notifier_h, coroutine_h, cryptor_h, data_array_abstract_tcp_h, data_array_socket_h,
  data_array_tcp_client_h, data_array_tcp_server_h, data_array_h, file_system_watcher_h, file_h,
  function_connector_h, http_server_h, http_socket_h, instance_h,
}
use HeadersB.{
  listen_socket_h, log_stream_h, log_h, main_thread_h, multicast_dns_h, poll_notifier_h,
  rrd_client_h, rrd_server_h, rrd_h, system_process_h, task_h, thread_pool_h, thread_h, timer_h,
  tls_context_h, version_h,
}
use ListsA.{
  annotated_dup, dir_4270bfced15e0e73154b13468c7c9ad9, dir_5c982d53a68cdbcd421152b4020263a9,
}
use ListsB.{examples, files_dup, functions_dup, functions_func, group_coroutine_api}
use ListsC.{
  hierarchy, struct_any_data, struct_coroutine_task, struct_coroutine_task_promise_type,
  struct_log_stream_message,
}
use ListsD.{struct_multicast_dns_host, topics}
use ClassesA.{
  class_abstract_function_connector, class_abstract_function_connector_connection,
  class_abstract_instance, class_abstract_log,
}
use ClassesB.{class_abstract_socket, class_abstract_task, class_abstract_thread}
use ClassesC.{
  class_abstract_thread_pool, class_abstract_thread_pool_thread, class_abstract_thread_waiter,
  class_abstract_tls_socket, class_address_resolver, class_application_notifier, class_data_array,
  class_data_array_abstract_tcp, class_data_array_abstract_tcp_thread,
}
use ClassesD.{
  class_data_array_list, class_data_array_socket, class_data_array_tcp_client,
  class_data_array_tcp_client_thread, class_data_array_tcp_server, class_data_array_view,
  class_data_stream,
}
use ClassesE.{
  class_file, class_file_system_watcher, class_function_connection_guard,
  class_function_connection_guard_list, class_function_connector, class_http_server,
  class_http_server_request,
}
use ClassesF.{
  class_http_server_response, class_http_server_tcp_socket, class_http_socket, class_instance,
  class_listen_socket, class_log, class_log_stream,
}
use ClassesG.{
  class_multicast_dns, class_poll_notifier, class_rrd, class_rrd_client, class_rrd_server,
  class_system_process, class_task,
}
use ClassesH.{class_thread, class_thread_pool, class_timer, class_tls_context}
unfoldable pub use Root.{navtree, navtreeindex}
use Shard0A.{shard_0_a}
use Shard0B.{shard_0_b}
use Shard0C.{shard_0_c}
use Shard0D.{shard_0_d}
use Shard1A.{shard_1_a}
use Shard1B.{shard_1_b}
use Shard1C.{shard_1_c}
use Shard1D.{shard_1_d}
use Shard2A.{shard_2_a}
use Shard2B.{shard_2_b}
use Shard2C.{shard_2_c}
use Shard2D.{shard_2_d}

-- The variable that each script defines.
unfoldable pub site_scripts : List (String × Entries)
unfolding abstract_socket_h abstract_thread_h abstract_tls_socket_h address_resolver_h any_data_h
    application_notifier_h coroutine_h cryptor_h data_array_abstract_tcp_h data_array_socket_h
    data_array_tcp_client_h data_array_tcp_server_h data_array_h file_system_watcher_h file_h
    function_connector_h http_server_h http_socket_h instance_h listen_socket_h log_stream_h log_h
    main_thread_h multicast_dns_h poll_notifier_h rrd_client_h rrd_server_h rrd_h system_process_h
    task_h thread_pool_h thread_h timer_h tls_context_h version_h annotated_dup
    dir_4270bfced15e0e73154b13468c7c9ad9 dir_5c982d53a68cdbcd421152b4020263a9 examples files_dup
    functions_dup functions_func group_coroutine_api hierarchy struct_any_data struct_coroutine_task
    struct_coroutine_task_promise_type struct_log_stream_message struct_multicast_dns_host topics
    class_abstract_function_connector class_abstract_function_connector_connection
    class_abstract_instance class_abstract_log class_abstract_socket class_abstract_task
    class_abstract_thread class_abstract_thread_pool class_abstract_thread_pool_thread
    class_abstract_thread_waiter class_abstract_tls_socket class_address_resolver
    class_application_notifier class_data_array class_data_array_abstract_tcp
    class_data_array_abstract_tcp_thread class_data_array_list class_data_array_socket
    class_data_array_tcp_client class_data_array_tcp_client_thread class_data_array_tcp_server
    class_data_array_view class_data_stream class_file class_file_system_watcher
    class_function_connection_guard class_function_connection_guard_list class_function_connector
    class_http_server class_http_server_request class_http_server_response
    class_http_server_tcp_socket class_http_socket class_instance class_listen_socket class_log
    class_log_stream class_multicast_dns class_poll_notifier class_rrd class_rrd_client
    class_rrd_server class_system_process class_task class_thread class_thread_pool class_timer
    class_tls_context
site_scripts =
    ("AbstractSocket_8h", abstract_socket_h)
    ∷ ("AbstractThread_8h", abstract_thread_h)
    ∷ ("AbstractTlsSocket_8h", abstract_tls_socket_h)
    ∷ ("AddressResolver_8h", address_resolver_h)
    ∷ ("AnyData_8h", any_data_h)
    ∷ ("ApplicationNotifier_8h", application_notifier_h)
    ∷ ("Coroutine_8h", coroutine_h)
    ∷ ("Cryptor_8h", cryptor_h)
    ∷ ("DataArrayAbstractTcp_8h", data_array_abstract_tcp_h)
    ∷ ("DataArraySocket_8h", data_array_socket_h)
    ∷ ("DataArrayTcpClient_8h", data_array_tcp_client_h)
    ∷ ("DataArrayTcpServer_8h", data_array_tcp_server_h)
    ∷ ("DataArray_8h", data_array_h)
    ∷ ("FileSystemWatcher_8h", file_system_watcher_h)
    ∷ ("File_8h", file_h)
    ∷ ("FunctionConnector_8h", function_connector_h)
    ∷ ("HttpServer_8h", http_server_h)
    ∷ ("HttpSocket_8h", http_socket_h)
    ∷ ("Instance_8h", instance_h)
    ∷ ("ListenSocket_8h", listen_socket_h)
    ∷ ("LogStream_8h", log_stream_h)
    ∷ ("Log_8h", log_h)
    ∷ ("MainThread_8h", main_thread_h)
    ∷ ("MulticastDns_8h", multicast_dns_h)
    ∷ ("PollNotifier_8h", poll_notifier_h)
    ∷ ("RrdClient_8h", rrd_client_h)
    ∷ ("RrdServer_8h", rrd_server_h)
    ∷ ("Rrd_8h", rrd_h)
    ∷ ("SystemProcess_8h", system_process_h)
    ∷ ("Task_8h", task_h)
    ∷ ("ThreadPool_8h", thread_pool_h)
    ∷ ("Thread_8h", thread_h)
    ∷ ("Timer_8h", timer_h)
    ∷ ("TlsContext_8h", tls_context_h)
    ∷ ("Version_8h", version_h)
    ∷ ("annotated_dup", annotated_dup)
    ∷ ("dir_4270bfced15e0e73154b13468c7c9ad9", dir_4270bfced15e0e73154b13468c7c9ad9)
    ∷ ("dir_5c982d53a68cdbcd421152b4020263a9", dir_5c982d53a68cdbcd421152b4020263a9)
    ∷ ("examples", examples)
    ∷ ("files_dup", files_dup)
    ∷ ("functions_dup", functions_dup)
    ∷ ("functions_func", functions_func)
    ∷ ("group__coroutine__api", group_coroutine_api)
    ∷ ("hierarchy", hierarchy)
    ∷ ("structAsyncFw_1_1AnyData", struct_any_data)
    ∷ ("structAsyncFw_1_1CoroutineTask", struct_coroutine_task)
    ∷ ("structAsyncFw_1_1CoroutineTask_1_1promise__type", struct_coroutine_task_promise_type)
    ∷ ("structAsyncFw_1_1LogStream_1_1Message", struct_log_stream_message)
    ∷ ("structAsyncFw_1_1MulticastDns_1_1Host", struct_multicast_dns_host)
    ∷ ("topics", topics)
    ∷ ("classAsyncFw_1_1AbstractFunctionConnector", class_abstract_function_connector)
    ∷ (
      "classAsyncFw_1_1AbstractFunctionConnector_1_1Connection",
      class_abstract_function_connector_connection,
    )
    ∷ ("classAsyncFw_1_1AbstractInstance", class_abstract_instance)
    ∷ ("classAsyncFw_1_1AbstractLog", class_abstract_log)
    ∷ ("classAsyncFw_1_1AbstractSocket", class_abstract_socket)
    ∷ ("classAsyncFw_1_1AbstractTask", class_abstract_task)
    ∷ ("classAsyncFw_1_1AbstractThread", class_abstract_thread)
    ∷ ("classAsyncFw_1_1AbstractThreadPool", class_abstract_thread_pool)
    ∷ ("classAsyncFw_1_1AbstractThreadPool_1_1Thread", class_abstract_thread_pool_thread)
    ∷ ("classAsyncFw_1_1AbstractThread_1_1Waiter", class_abstract_thread_waiter)
    ∷ ("classAsyncFw_1_1AbstractTlsSocket", class_abstract_tls_socket)
    ∷ ("classAsyncFw_1_1AddressResolver", class_address_resolver)
    ∷ ("classAsyncFw_1_1ApplicationNotifier", class_application_notifier)
    ∷ ("classAsyncFw_1_1DataArray", class_data_array)
    ∷ ("classAsyncFw_1_1DataArrayAbstractTcp", class_data_array_abstract_tcp)
    ∷ ("classAsyncFw_1_1DataArrayAbstractTcp_1_1Thread", class_data_array_abstract_tcp_thread)
    ∷ ("classAsyncFw_1_1DataArrayList", class_data_array_list)
    ∷ ("classAsyncFw_1_1DataArraySocket", class_data_array_socket)
    ∷ ("classAsyncFw_1_1DataArrayTcpClient", class_data_array_tcp_client)
    ∷ ("classAsyncFw_1_1DataArrayTcpClient_1_1Thread", class_data_array_tcp_client_thread)
    ∷ ("classAsyncFw_1_1DataArrayTcpServer", class_data_array_tcp_server)
    ∷ ("classAsyncFw_1_1DataArrayView", class_data_array_view)
    ∷ ("classAsyncFw_1_1DataStream", class_data_stream)
    ∷ ("classAsyncFw_1_1File", class_file)
    ∷ ("classAsyncFw_1_1FileSystemWatcher", class_file_system_watcher)
    ∷ ("classAsyncFw_1_1FunctionConnectionGuard", class_function_connection_guard)
    ∷ ("classAsyncFw_1_1FunctionConnectionGuardList", class_function_connection_guard_list)
    ∷ ("classAsyncFw_1_1FunctionConnector", class_function_connector)
    ∷ ("classAsyncFw_1_1HttpServer", class_http_server)
    ∷ ("classAsyncFw_1_1HttpServer_1_1Request", class_http_server_request)
    ∷ ("classAsyncFw_1_1HttpServer_1_1Response", class_http_server_response)
    ∷ ("classAsyncFw_1_1HttpServer_1_1TcpSocket", class_http_server_tcp_socket)
    ∷ ("classAsyncFw_1_1HttpSocket", class_http_socket)
    ∷ ("classAsyncFw_1_1Instance", class_instance)
    ∷ ("classAsyncFw_1_1ListenSocket", class_listen_socket)
    ∷ ("classAsyncFw_1_1Log", class_log)
    ∷ ("classAsyncFw_1_1LogStream", class_log_stream)
    ∷ ("classAsyncFw_1_1MulticastDns", class_multicast_dns)
    ∷ ("classAsyncFw_1_1PollNotifier", class_poll_notifier)
    ∷ ("classAsyncFw_1_1Rrd", class_rrd)
    ∷ ("classAsyncFw_1_1RrdClient", class_rrd_client)
    ∷ ("classAsyncFw_1_1RrdServer", class_rrd_server)
    ∷ ("classAsyncFw_1_1SystemProcess", class_system_process)
    ∷ ("classAsyncFw_1_1Task", class_task)
    ∷ ("classAsyncFw_1_1Thread", class_thread)
    ∷ ("classAsyncFw_1_1ThreadPool", class_thread_pool)
    ∷ ("classAsyncFw_1_1Timer", class_timer)
    ∷ ("classAsyncFw_1_1TlsContext", class_tls_context)
    ∷ []

-- `NAVTREEINDEX0` to `NAVTREEINDEX2`.
unfoldable pub shard_0 : List (String × List ℕ)
unfolding shard_0_a shard_0_b shard_0_c shard_0_d
shard_0 = shard_0_a ++ (shard_0_b ++ (shard_0_c ++ shard_0_d))

unfoldable pub shard_1 : List (String × List ℕ)
unfolding shard_1_a shard_1_b shard_1_c shard_1_d
shard_1 = shard_1_a ++ (shard_1_b ++ (shard_1_c ++ shard_1_d))

unfoldable pub shard_2 : List (String × List ℕ)
unfolding shard_2_a shard_2_b shard_2_c shard_2_d
shard_2 = shard_2_a ++ (shard_2_b ++ (shard_2_c ++ shard_2_d))

unfoldable pub site_shards : List (List (String × List ℕ))
unfolding shard_0 shard_1 shard_2
site_shards = shard_0 ∷ shard_1 ∷ shard_2 ∷ []
