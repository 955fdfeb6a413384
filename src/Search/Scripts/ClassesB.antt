-- ===== src/Search/Scripts/ClassesB.antt =====
-- docs/search/classes_3.js to docs/search/classes_4.js: entries of the search.
use async_fw.Base.{true, List, [], ◌∷◌}
use async_fw.Search.Results.{Found}
use async_fw.Search.Scripts.Entry.{hit, found}

unfoldable pub classes_3 : List Found
classes_3 =
    found "file_0" "File" (hit "../classAsyncFw_1_1File.html" true "AsyncFw" ∷ [])
    ∷ found "filesystemwatcher_1" "FileSystemWatcher"
        (hit "../classAsyncFw_1_1FileSystemWatcher.html" true "AsyncFw" ∷ [])
    ∷ found "functionconnectionguard_2" "FunctionConnectionGuard"
        (hit "../classAsyncFw_1_1FunctionConnectionGuard.html" true "AsyncFw" ∷ [])
    ∷ found "functionconnectionguardlist_3" "FunctionConnectionGuardList"
        (hit "../classAsyncFw_1_1FunctionConnectionGuardList.html" true "AsyncFw" ∷ [])
    ∷ found "functionconnector_4" "FunctionConnector"
        (hit "../classAsyncFw_1_1FunctionConnector.html" true "AsyncFw" ∷ [])
    ∷ found "functionconnector_3c_20abstractsocket_3a_3astate_20_3e_5"
        "FunctionConnector&lt; AbstractSocket::State &gt;"
        (hit "../classAsyncFw_1_1FunctionConnector.html" true "AsyncFw" ∷ [])
    ∷ found "functionconnector_3c_20abstractthread_3a_3apollevents_20_3e_6"
        "FunctionConnector&lt; AbstractThread::PollEvents &gt;"
        (hit "../classAsyncFw_1_1FunctionConnector.html" true "AsyncFw" ∷ [])
    ∷ found "functionconnector_3c_20const_20abstractsocket_3a_3astate_20_3e_7"
        "FunctionConnector&lt; const AbstractSocket::State &gt;"
        (hit "../classAsyncFw_1_1FunctionConnector.html" true "AsyncFw" ∷ [])
    ∷ found
        "functionconnector_3c_20const_20asyncfw_3a_3aapplicationnotifier_3a_3avalue_20_26_20_3e_8"
        "FunctionConnector&lt; const AsyncFw::ApplicationNotifier::Value &amp; &gt;"
        (hit "../classAsyncFw_1_1FunctionConnector.html" true "AsyncFw" ∷ [])
    ∷ found "functionconnector_3c_20const_20asyncfw_3a_3adataarray_20_26_20_3e_9"
        "FunctionConnector&lt; const AsyncFw::DataArray &amp; &gt;"
        (hit "../classAsyncFw_1_1FunctionConnector.html" true "AsyncFw" ∷ [])
    ∷ found "functionconnector_3c_20const_20asyncfw_3a_3adataarray_20_2a_2c_20uint32_5ft_20_3e_10"
        "FunctionConnector&lt; const AsyncFw::DataArray *, uint32_t &gt;"
        (hit "../classAsyncFw_1_1FunctionConnector.html" true "AsyncFw" ∷ [])
    ∷ found "functionconnector_3c_20const_20asyncfw_3a_3adataarraysocket_20_2a_20_3e_11"
        "FunctionConnector&lt; const AsyncFw::DataArraySocket * &gt;"
        (hit "../classAsyncFw_1_1FunctionConnector.html" true "AsyncFw" ∷ [])
    ∷ found
        "functionconnector_3c_20const_20asyncfw_3a_3adataarraysocket_20_2a_2c_20const_20asyncfw_3a_3adataarray_20_2a_2c_20uint32_5ft_20_3e_12"
        "FunctionConnector&lt; const AsyncFw::DataArraySocket *, const AsyncFw::DataArray *, uint32_t &gt;"
        (hit "../classAsyncFw_1_1FunctionConnector.html" true "AsyncFw" ∷ [])
    ∷ found
        "functionconnector_3c_20const_20asyncfw_3a_3ahttpsocket_20_2a_2c_20const_20asyncfw_3a_3adataarray_20_26_20_3e_13"
        "FunctionConnector&lt; const AsyncFw::HttpSocket *, const AsyncFw::DataArray &amp; &gt;"
        (hit "../classAsyncFw_1_1FunctionConnector.html" true "AsyncFw" ∷ [])
    ∷ found "functionconnector_3c_20const_20asyncfw_3a_3amulticastdns_3a_3ahost_20_26_20_3e_14"
        "FunctionConnector&lt; const AsyncFw::MulticastDns::Host &amp; &gt;"
        (hit "../classAsyncFw_1_1FunctionConnector.html" true "AsyncFw" ∷ [])
    ∷ found "functionconnector_3c_20const_20std_3a_3astring_20_26_2c_20bool_20_3e_15"
        "FunctionConnector&lt; const std::string &amp;, bool &gt;"
        (hit "../classAsyncFw_1_1FunctionConnector.html" true "AsyncFw" ∷ [])
    ∷ found "functionconnector_3c_20const_20std_3a_3astring_20_26_2c_20int_20_3e_16"
        "FunctionConnector&lt; const std::string &amp;, int &gt;"
        (hit "../classAsyncFw_1_1FunctionConnector.html" true "AsyncFw" ∷ [])
    ∷ found "functionconnector_3c_20int_20_3e_17" "FunctionConnector&lt; int &gt;"
        (hit "../classAsyncFw_1_1FunctionConnector.html" true "AsyncFw" ∷ [])
    ∷ found "functionconnector_3c_20int_2c_20const_20std_3a_3astring_20_26_2c_20bool_20_2a_20_3e_18"
        "FunctionConnector&lt; int, const std::string &amp;, bool * &gt;"
        (hit "../classAsyncFw_1_1FunctionConnector.html" true "AsyncFw" ∷ [])
    ∷ found
        "functionconnector_3c_20int_2c_20const_20std_3a_3avector_3c_20std_3a_3astring_20_3e_20_26_20_3e_19"
        "FunctionConnector&lt; int, const std::vector&lt; std::string &gt; &amp; &gt;"
        (hit "../classAsyncFw_1_1FunctionConnector.html" true "AsyncFw" ∷ [])
    ∷ found "functionconnector_3c_20state_20_3e_20" "FunctionConnector&lt; State &gt;"
        (hit "../classAsyncFw_1_1FunctionConnector.html" true "AsyncFw" ∷ [])
    ∷ []

unfoldable pub classes_4 : List Found
classes_4 =
    found "host_0" "Host"
      (hit "../structAsyncFw_1_1MulticastDns_1_1Host.html" true "AsyncFw::MulticastDns" ∷ [])
    ∷ found "httpserver_1" "HttpServer"
        (hit "../classAsyncFw_1_1HttpServer.html" true "AsyncFw" ∷ [])
    ∷ found "httpsocket_2" "HttpSocket"
        (hit "../classAsyncFw_1_1HttpSocket.html" true "AsyncFw" ∷ [])
    ∷ []
