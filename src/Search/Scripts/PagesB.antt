-- ===== src/Search/Scripts/PagesB.antt =====
-- docs/search/pages_c.js to docs/search/pages_14.js: entries of the search.
use async_fw.Base.{true, List, [], ◌∷◌}
use async_fw.Search.Results.{Found}
use async_fw.Search.Scripts.Entry.{hit, found}

unfoldable pub pages_c : List Found
pages_c =
    found "deep_20coroutine_20orchestration_20rpc_3a_20coinvoke_0"
      "3. Deep Coroutine Orchestration &amp;amp; RPC: &lt;span class=&quot;tt&quot;&gt;coInvoke&lt;/span&gt;"
      (hit "../index.html#autotoc_md5" true "" ∷ [])
    ∷ found "diagnostic_20stream_3a_20logstream_1"
        "7. Thread-Safe Diagnostic Stream: &lt;span class=&quot;tt&quot;&gt;LogStream&lt;/span&gt;"
        (hit "../index.html#autotoc_md9" true "" ∷ [])
    ∷ found "discovery_3a_20multicastdns_2"
        "9. Asynchronous Service Discovery: &lt;span class=&quot;tt&quot;&gt;MulticastDns&lt;/span&gt;"
        (hit "../index.html#autotoc_md11" true "" ∷ [])
    ∷ found "distribution_3a_20threadpool_3"
        "6. Smart Task Distribution: &lt;span class=&quot;tt&quot;&gt;ThreadPool&lt;/span&gt;"
        (hit "../index.html#autotoc_md8" true "" ∷ [])
    ∷ []

unfoldable pub pages_d : List Found
pages_d =
    found "functionconnector_0"
      "2. Cross-Thread Signals: &lt;span class=&quot;tt&quot;&gt;FunctionConnector&lt;/span&gt;"
      (hit "../index.html#autotoc_md4" true "" ∷ [])
    ∷ []

unfoldable pub pages_e : List Found
pages_e =
    found "logstream_0"
      "7. Thread-Safe Diagnostic Stream: &lt;span class=&quot;tt&quot;&gt;LogStream&lt;/span&gt;"
      (hit "../index.html#autotoc_md9" true "" ∷ [])
    ∷ []

unfoldable pub pages_f : List Found
pages_f =
    found "mainthread_0"
      "8. The Application Master: &lt;span class=&quot;tt&quot;&gt;MainThread&lt;/span&gt;"
      (hit "../index.html#autotoc_md10" true "" ∷ [])
    ∷ found "master_3a_20mainthread_1"
        "8. The Application Master: &lt;span class=&quot;tt&quot;&gt;MainThread&lt;/span&gt;"
        (hit "../index.html#autotoc_md10" true "" ∷ [])
    ∷ found "multicastdns_2"
        "9. Asynchronous Service Discovery: &lt;span class=&quot;tt&quot;&gt;MulticastDns&lt;/span&gt;"
        (hit "../index.html#autotoc_md11" true "" ∷ [])
    ∷ []

unfoldable pub pages_10 : List Found
pages_10 =
    found "network_20worker_20thread_3a_20thread_20secure_20sockets_0"
      "4. Network Worker Thread: &lt;span class=&quot;tt&quot;&gt;Thread&lt;/span&gt; &amp;amp; Secure Sockets"
      (hit "../index.html#autotoc_md6" true "" ∷ [])
    ∷ []

unfoldable pub pages_11 : List Found
pages_11 =
    found "orchestration_20rpc_3a_20coinvoke_0"
      "3. Deep Coroutine Orchestration &amp;amp; RPC: &lt;span class=&quot;tt&quot;&gt;coInvoke&lt;/span&gt;"
      (hit "../index.html#autotoc_md5" true "" ∷ [])
    ∷ []

unfoldable pub pages_12 : List Found
pages_12 =
    found "pki_3a_20tlscontext_0"
      "5. Cryptographic State &amp;amp; PKI: &lt;span class=&quot;tt&quot;&gt;TlsContext&lt;/span&gt;"
      (hit "../index.html#autotoc_md7" true "" ∷ [])
    ∷ []

unfoldable pub pages_13 : List Found
pages_13 =
    found "rpc_3a_20coinvoke_0"
      "3. Deep Coroutine Orchestration &amp;amp; RPC: &lt;span class=&quot;tt&quot;&gt;coInvoke&lt;/span&gt;"
      (hit "../index.html#autotoc_md5" true "" ∷ [])
    ∷ []

unfoldable pub pages_14 : List Found
pages_14 =
    found "safe_20diagnostic_20stream_3a_20logstream_0"
      "7. Thread-Safe Diagnostic Stream: &lt;span class=&quot;tt&quot;&gt;LogStream&lt;/span&gt;"
      (hit "../index.html#autotoc_md9" true "" ∷ [])
    ∷ found "secure_20sockets_1"
        "4. Network Worker Thread: &lt;span class=&quot;tt&quot;&gt;Thread&lt;/span&gt; &amp;amp; Secure Sockets"
        (hit "../index.html#autotoc_md6" true "" ∷ [])
    ∷ found "service_20discovery_3a_20multicastdns_2"
        "9. Asynchronous Service Discovery: &lt;span class=&quot;tt&quot;&gt;MulticastDns&lt;/span&gt;"
        (hit "../index.html#autotoc_md11" true "" ∷ [])
    ∷ found "signals_3a_20functionconnector_3"
        "2. Cross-Thread Signals: &lt;span class=&quot;tt&quot;&gt;FunctionConnector&lt;/span&gt;"
        (hit "../index.html#autotoc_md4" true "" ∷ [])
    ∷ found "smart_20task_20distribution_3a_20threadpool_4"
        "6. Smart Task Distribution: &lt;span class=&quot;tt&quot;&gt;ThreadPool&lt;/span&gt;"
        (hit "../index.html#autotoc_md8" true "" ∷ [])
    ∷ found "sockets_5"
        "4. Network Worker Thread: &lt;span class=&quot;tt&quot;&gt;Thread&lt;/span&gt; &amp;amp; Secure Sockets"
        (hit "../index.html#autotoc_md6" true "" ∷ [])
    ∷ found "state_20pki_3a_20tlscontext_6"
        "5. Cryptographic State &amp;amp; PKI: &lt;span class=&quot;tt&quot;&gt;TlsContext&lt;/span&gt;"
        (hit "../index.html#autotoc_md7" true "" ∷ [])
    ∷ found "stream_3a_20logstream_7"
        "7. Thread-Safe Diagnostic Stream: &lt;span class=&quot;tt&quot;&gt;LogStream&lt;/span&gt;"
        (hit "../index.html#autotoc_md9" true "" ∷ [])
    ∷ []
