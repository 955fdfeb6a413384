-- ===== src/Search/Scripts/PagesA.antt =====
-- docs/search/pages_0.js to docs/search/pages_b.js: entries of the search.
use async_fw.Base.{true, List, [], ◌∷◌}
use async_fw.Search.Results.{Found}
use async_fw.Search.Scripts.Entry.{hit, found}

unfoldable pub pages_0 : List Found
pages_0 =
    found "1_20the_20core_20backbone_3a_20abstractthread_0"
      "1. The Core Backbone: &lt;span class=&quot;tt&quot;&gt;AbstractThread&lt;/span&gt;"
      (hit "../index.html#autotoc_md3" true "" ∷ [])
    ∷ []

unfoldable pub pages_1 : List Found
pages_1 =
    found "2_20cross_20thread_20signals_3a_20functionconnector_0"
      "2. Cross-Thread Signals: &lt;span class=&quot;tt&quot;&gt;FunctionConnector&lt;/span&gt;"
      (hit "../index.html#autotoc_md4" true "" ∷ [])
    ∷ []

unfoldable pub pages_2 : List Found
pages_2 =
    found "3_20deep_20coroutine_20orchestration_20rpc_3a_20coinvoke_0"
      "3. Deep Coroutine Orchestration &amp;amp; RPC: &lt;span class=&quot;tt&quot;&gt;coInvoke&lt;/span&gt;"
      (hit "../index.html#autotoc_md5" true "" ∷ [])
    ∷ []

unfoldable pub pages_3 : List Found
pages_3 =
    found "4_20network_20worker_20thread_3a_20thread_20secure_20sockets_0"
      "4. Network Worker Thread: &lt;span class=&quot;tt&quot;&gt;Thread&lt;/span&gt; &amp;amp; Secure Sockets"
      (hit "../index.html#autotoc_md6" true "" ∷ [])
    ∷ []

unfoldable pub pages_4 : List Found
pages_4 =
    found "5_20cryptographic_20state_20pki_3a_20tlscontext_0"
      "5. Cryptographic State &amp;amp; PKI: &lt;span class=&quot;tt&quot;&gt;TlsContext&lt;/span&gt;"
      (hit "../index.html#autotoc_md7" true "" ∷ [])
    ∷ []

unfoldable pub pages_5 : List Found
pages_5 =
    found "6_20smart_20task_20distribution_3a_20threadpool_0"
      "6. Smart Task Distribution: &lt;span class=&quot;tt&quot;&gt;ThreadPool&lt;/span&gt;"
      (hit "../index.html#autotoc_md8" true "" ∷ [])
    ∷ []

unfoldable pub pages_6 : List Found
pages_6 =
    found "7_20thread_20safe_20diagnostic_20stream_3a_20logstream_0"
      "7. Thread-Safe Diagnostic Stream: &lt;span class=&quot;tt&quot;&gt;LogStream&lt;/span&gt;"
      (hit "../index.html#autotoc_md9" true "" ∷ [])
    ∷ []

unfoldable pub pages_7 : List Found
pages_7 =
    found "8_20the_20application_20master_3a_20mainthread_0"
      "8. The Application Master: &lt;span class=&quot;tt&quot;&gt;MainThread&lt;/span&gt;"
      (hit "../index.html#autotoc_md10" true "" ∷ [])
    ∷ []

unfoldable pub pages_8 : List Found
pages_8 =
    found "9_20asynchronous_20service_20discovery_3a_20multicastdns_0"
      "9. Asynchronous Service Discovery: &lt;span class=&quot;tt&quot;&gt;MulticastDns&lt;/span&gt;"
      (hit "../index.html#autotoc_md11" true "" ∷ [])
    ∷ []

unfoldable pub pages_9 : List Found
pages_9 =
    found "abstractthread_0"
      "1. The Core Backbone: &lt;span class=&quot;tt&quot;&gt;AbstractThread&lt;/span&gt;"
      (hit "../index.html#autotoc_md3" true "" ∷ [])
    ∷ found "application_20master_3a_20mainthread_1"
        "8. The Application Master: &lt;span class=&quot;tt&quot;&gt;MainThread&lt;/span&gt;"
        (hit "../index.html#autotoc_md10" true "" ∷ [])
    ∷ found "architecture_20components_2" "Core Architecture &amp;amp; Components"
        (hit "../index.html#autotoc_md2" true "" ∷ [])
    ∷ found "asyncfw_3" "AsyncFw" (hit "../index.html" true "" ∷ [])
    ∷ found "asynchronous_20service_20discovery_3a_20multicastdns_4"
        "9. Asynchronous Service Discovery: &lt;span class=&quot;tt&quot;&gt;MulticastDns&lt;/span&gt;"
        (hit "../index.html#autotoc_md11" true "" ∷ [])
    ∷ []

unfoldable pub pages_a : List Found
pages_a =
    found "backbone_3a_20abstractthread_0"
      "1. The Core Backbone: &lt;span class=&quot;tt&quot;&gt;AbstractThread&lt;/span&gt;"
      (hit "../index.html#autotoc_md3" true "" ∷ [])
    ∷ []

unfoldable pub pages_b : List Found
pages_b =
    found "coinvoke_0"
      "3. Deep Coroutine Orchestration &amp;amp; RPC: &lt;span class=&quot;tt&quot;&gt;coInvoke&lt;/span&gt;"
      (hit "../index.html#autotoc_md5" true "" ∷ [])
    ∷ found "components_1" "Core Architecture &amp;amp; Components"
        (hit "../index.html#autotoc_md2" true "" ∷ [])
    ∷ found "core_20architecture_20components_2" "Core Architecture &amp;amp; Components"
        (hit "../index.html#autotoc_md2" true "" ∷ [])
    ∷ found "core_20backbone_3a_20abstractthread_3"
        "1. The Core Backbone: &lt;span class=&quot;tt&quot;&gt;AbstractThread&lt;/span&gt;"
        (hit "../index.html#autotoc_md3" true "" ∷ [])
    ∷ found "coroutine_20orchestration_20rpc_3a_20coinvoke_4"
        "3. Deep Coroutine Orchestration &amp;amp; RPC: &lt;span class=&quot;tt&quot;&gt;coInvoke&lt;/span&gt;"
        (hit "../index.html#autotoc_md5" true "" ∷ [])
    ∷ found "cross_20thread_20signals_3a_20functionconnector_5"
        "2. Cross-Thread Signals: &lt;span class=&quot;tt&quot;&gt;FunctionConnector&lt;/span&gt;"
        (hit "../index.html#autotoc_md4" true "" ∷ [])
    ∷ found "cryptographic_20state_20pki_3a_20tlscontext_6"
        "5. Cryptographic State &amp;amp; PKI: &lt;span class=&quot;tt&quot;&gt;TlsContext&lt;/span&gt;"
        (hit "../index.html#autotoc_md7" true "" ∷ [])
    ∷ []
