-- ===== src/Search/Scripts/ClassesA.antt =====
-- docs/search/classes_0.js to docs/search/classes_2.js: entries of the search.
use async_fw.Base.{true, List, [], ◌∷◌}
use async_fw.Search.Results.{Found}
use async_fw.Search.Scripts.Entry.{hit, found}

unfoldable pub classes_0 : List Found
classes_0 =
    found "abstractfunctionconnector_0" "AbstractFunctionConnector"
      (hit "../classAsyncFw_1_1AbstractFunctionConnector.html" true "AsyncFw" ∷ [])
    ∷ found "abstractinstance_1" "AbstractInstance"
        (hit "../classAsyncFw_1_1AbstractInstance.html" true "AsyncFw" ∷ [])
    ∷ found "abstractlog_2" "AbstractLog"
        (hit "../classAsyncFw_1_1AbstractLog.html" true "AsyncFw" ∷ [])
    ∷ found "abstractsocket_3" "AbstractSocket"
        (hit "../classAsyncFw_1_1AbstractSocket.html" true "AsyncFw" ∷ [])
    ∷ found "abstracttask_4" "AbstractTask"
        (hit "../classAsyncFw_1_1AbstractTask.html" true "AsyncFw" ∷ [])
    ∷ found "abstractthread_5" "AbstractThread"
        (hit "../classAsyncFw_1_1AbstractThread.html" true "AsyncFw" ∷ [])
    ∷ found "abstractthreadpool_6" "AbstractThreadPool"
        (hit "../classAsyncFw_1_1AbstractThreadPool.html" true "AsyncFw" ∷ [])
    ∷ found "abstracttlssocket_7" "AbstractTlsSocket"
        (hit "../classAsyncFw_1_1AbstractTlsSocket.html" true "AsyncFw" ∷ [])
    ∷ found "addressresolver_8" "AddressResolver"
        (hit "../classAsyncFw_1_1AddressResolver.html" true "AsyncFw" ∷ [])
    ∷ found "anydata_9" "AnyData" (hit "../structAsyncFw_1_1AnyData.html" true "AsyncFw" ∷ [])
    ∷ found "applicationnotifier_10" "ApplicationNotifier"
        (hit "../classAsyncFw_1_1ApplicationNotifier.html" true "AsyncFw" ∷ [])
    ∷ []

unfoldable pub classes_1 : List Found
classes_1 =
    found "connection_0" "Connection" (
      hit "../classAsyncFw_1_1AbstractFunctionConnector_1_1Connection.html" true
        "AsyncFw::AbstractFunctionConnector"
      ∷ [])
    ∷ found "coroutineawait_1" "CoroutineAwait"
        (hit "../structAsyncFw_1_1CoroutineAwait.html" true "AsyncFw" ∷ [])
    ∷ found "coroutineinvokeawait_2" "CoroutineInvokeAwait"
        (hit "../structAsyncFw_1_1CoroutineInvokeAwait.html" true "AsyncFw" ∷ [])
    ∷ found "coroutinetask_3" "CoroutineTask"
        (hit "../structAsyncFw_1_1CoroutineTask.html" true "AsyncFw" ∷ [])
    ∷ found "cryptor_4" "Cryptor" (hit "../classAsyncFw_1_1Cryptor.html" true "AsyncFw" ∷ [])
    ∷ []

unfoldable pub classes_2 : List Found
classes_2 =
    found "dataarray_0" "DataArray" (hit "../classAsyncFw_1_1DataArray.html" true "AsyncFw" ∷ [])
    ∷ found "dataarrayabstracttcp_1" "DataArrayAbstractTcp"
        (hit "../classAsyncFw_1_1DataArrayAbstractTcp.html" true "AsyncFw" ∷ [])
    ∷ found "dataarraylist_2" "DataArrayList"
        (hit "../classAsyncFw_1_1DataArrayList.html" true "AsyncFw" ∷ [])
    ∷ found "dataarraysocket_3" "DataArraySocket"
        (hit "../classAsyncFw_1_1DataArraySocket.html" true "AsyncFw" ∷ [])
    ∷ found "dataarraytcpclient_4" "DataArrayTcpClient"
        (hit "../classAsyncFw_1_1DataArrayTcpClient.html" true "AsyncFw" ∷ [])
    ∷ found "dataarraytcpserver_5" "DataArrayTcpServer"
        (hit "../classAsyncFw_1_1DataArrayTcpServer.html" true "AsyncFw" ∷ [])
    ∷ found "dataarrayview_6" "DataArrayView"
        (hit "../classAsyncFw_1_1DataArrayView.html" true "AsyncFw" ∷ [])
    ∷ found "datastream_7" "DataStream"
        (hit "../classAsyncFw_1_1DataStream.html" true "AsyncFw" ∷ [])
    ∷ []
