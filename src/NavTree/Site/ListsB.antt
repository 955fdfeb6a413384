-- ===== src/NavTree/Site/ListsB.antt =====
-- The other lists that the site loads on demand, docs/*.js.
use async_fw.Base.{some}
use async_fw.NavTree.Entries.{entry, leaf, script, Entries, end, ◌⨾◌}

unfoldable pub examples : Entries
examples =
    entry "ApplicationNotifier/main.cpp" (some "ApplicationNotifier_2main_8cpp-example.html") leaf
    ⨾ entry "ContainerTask/main.cpp" (some "ContainerTask_2main_8cpp-example.html") leaf
    ⨾ entry "Coroutine/main.cpp" (some "Coroutine_2main_8cpp-example.html") leaf
    ⨾ entry "CoroutineInvoke/main.cpp" (some "CoroutineInvoke_2main_8cpp-example.html") leaf
    ⨾ entry "CoroutineWait/main.cpp" (some "CoroutineWait_2main_8cpp-example.html") leaf
    ⨾ entry "Cryptor/main.cpp" (some "Cryptor_2main_8cpp-example.html") leaf
    ⨾ entry "DataArray/main.cpp" (some "DataArray_2main_8cpp-example.html") leaf
    ⨾ entry "DataArrayTcp/main.cpp" (some "DataArrayTcp_2main_8cpp-example.html") leaf
    ⨾ entry "FileSystemWatcher/main.cpp" (some "FileSystemWatcher_2main_8cpp-example.html") leaf
    ⨾ entry "FunctionConnector/main.cpp" (some "FunctionConnector_2main_8cpp-example.html") leaf
    ⨾ entry "HttpServer/main.cpp" (some "HttpServer_2main_8cpp-example.html") leaf
    ⨾ entry "HttpSocket/main.cpp" (some "HttpSocket_2main_8cpp-example.html") leaf
    ⨾ entry "ThreadInvoke/main.cpp" (some "ThreadInvoke_2main_8cpp-example.html") leaf
    ⨾ entry "ListenSocket/main.cpp" (some "ListenSocket_2main_8cpp-example.html") leaf
    ⨾ entry "Log/main.cpp" (some "Log_2main_8cpp-example.html") leaf
    ⨾ entry "LogTcp/main.cpp" (some "LogTcp_2main_8cpp-example.html") leaf
    ⨾ entry "MulticastDns/main.cpp" (some "MulticastDns_2main_8cpp-example.html") leaf
    ⨾ entry "Socket/main.cpp" (some "Socket_2main_8cpp-example.html") leaf
    ⨾ entry "Stdin/main.cpp" (some "Stdin_2main_8cpp-example.html") leaf
    ⨾ entry "SystemProcess/main.cpp" (some "SystemProcess_2main_8cpp-example.html") leaf
    ⨾ entry "ThreadPool/main.cpp" (some "ThreadPool_2main_8cpp-example.html") leaf
    ⨾ entry "Timer/main.cpp" (some "Timer_2main_8cpp-example.html") leaf
    ⨾ entry "TlsContext/main.cpp" (some "TlsContext_2main_8cpp-example.html") leaf
    ⨾ entry "Uart/main.cpp" (some "Uart_2main_8cpp-example.html") leaf
    ⨾ end

unfoldable pub files_dup : Entries
files_dup =
    entry "core" (some "dir_4270bfced15e0e73154b13468c7c9ad9.html")
      (script "dir_4270bfced15e0e73154b13468c7c9ad9")
    ⨾ entry "main" (some "dir_5c982d53a68cdbcd421152b4020263a9.html")
        (script "dir_5c982d53a68cdbcd421152b4020263a9")
    ⨾ end

unfoldable pub functions_dup : Entries
functions_dup =
    entry "a" (some "functions.html") leaf
    ⨾ entry "c" (some "functions_c.html") leaf
    ⨾ entry "d" (some "functions_d.html") leaf
    ⨾ entry "e" (some "functions_e.html") leaf
    ⨾ entry "f" (some "functions_f.html") leaf
    ⨾ entry "g" (some "functions_g.html") leaf
    ⨾ entry "h" (some "functions_h.html") leaf
    ⨾ entry "i" (some "functions_i.html") leaf
    ⨾ entry "j" (some "functions_j.html") leaf
    ⨾ entry "k" (some "functions_k.html") leaf
    ⨾ entry "l" (some "functions_l.html") leaf
    ⨾ entry "m" (some "functions_m.html") leaf
    ⨾ entry "n" (some "functions_n.html") leaf
    ⨾ entry "o" (some "functions_o.html") leaf
    ⨾ entry "p" (some "functions_p.html") leaf
    ⨾ entry "q" (some "functions_q.html") leaf
    ⨾ entry "r" (some "functions_r.html") leaf
    ⨾ entry "s" (some "functions_s.html") leaf
    ⨾ entry "t" (some "functions_t.html") leaf
    ⨾ entry "u" (some "functions_u.html") leaf
    ⨾ entry "v" (some "functions_v.html") leaf
    ⨾ entry "w" (some "functions_w.html") leaf
    ⨾ entry "~" (some "functions_~.html") leaf
    ⨾ end

unfoldable pub functions_func : Entries
functions_func =
    entry "a" (some "functions_func.html") leaf
    ⨾ entry "c" (some "functions_func_c.html") leaf
    ⨾ entry "d" (some "functions_func_d.html") leaf
    ⨾ entry "e" (some "functions_func_e.html") leaf
    ⨾ entry "f" (some "functions_func_f.html") leaf
    ⨾ entry "g" (some "functions_func_g.html") leaf
    ⨾ entry "h" (some "functions_func_h.html") leaf
    ⨾ entry "i" (some "functions_func_i.html") leaf
    ⨾ entry "j" (some "functions_func_j.html") leaf
    ⨾ entry "k" (some "functions_func_k.html") leaf
    ⨾ entry "l" (some "functions_func_l.html") leaf
    ⨾ entry "m" (some "functions_func_m.html") leaf
    ⨾ entry "n" (some "functions_func_n.html") leaf
    ⨾ entry "o" (some "functions_func_o.html") leaf
    ⨾ entry "p" (some "functions_func_p.html") leaf
    ⨾ entry "q" (some "functions_func_q.html") leaf
    ⨾ entry "r" (some "functions_func_r.html") leaf
    ⨾ entry "s" (some "functions_func_s.html") leaf
    ⨾ entry "t" (some "functions_func_t.html") leaf
    ⨾ entry "u" (some "functions_func_u.html") leaf
    ⨾ entry "v" (some "functions_func_v.html") leaf
    ⨾ entry "w" (some "functions_func_w.html") leaf
    ⨾ entry "~" (some "functions_func_~.html") leaf
    ⨾ end

unfoldable pub group_coroutine_api : Entries
group_coroutine_api =
    entry "AsyncFw::coInvoke" (some "group__coroutine__api.html#ga0005f3892c4f008098e0ee2634481d5a")
      leaf
    ⨾ entry "AsyncFw::coInvoke"
        (some "group__coroutine__api.html#gad114e5309a86890f0fa504ff94f3edef") leaf
    ⨾ entry "AsyncFw::coInvoke"
        (some "group__coroutine__api.html#ga36873f186789bdcd404e10d179081bc4") leaf
    ⨾ entry "AsyncFw::coInvoke"
        (some "group__coroutine__api.html#ga4000deb9d729812b431fc3345fca5eba") leaf
    ⨾ entry "AsyncFw::coTimeout"
        (some "group__coroutine__api.html#ga37b3a970310b55e69ed1cb7aa9ab3646") leaf
    ⨾ end
