-- ===== src/Search/Scripts/PagesC.antt =====
-- docs/search/pages_15.js to docs/search/pages_16.js: entries of the search.
use async_fw.Base.{true, List, [], ◌∷◌}
use async_fw.Search.Results.{Found}
use async_fw.Search.Scripts.Entry.{hit, found}

unfoldable pub pages_15 : List Found
pages_15 =
    found "task_20distribution_3a_20threadpool_0"
      "6. Smart Task Distribution: &lt;span class=&quot;tt&quot;&gt;ThreadPool&lt;/span&gt;"
      (hit "../index.html#autotoc_md8" true "" ∷ [])
    ∷ found "the_20application_20master_3a_20mainthread_1"
        "8. The Application Master: &lt;span class=&quot;tt&quot;&gt;MainThread&lt;/span&gt;"
        (hit "../index.html#autotoc_md10" true "" ∷ [])
    ∷ found "the_20core_20backbone_3a_20abstractthread_2"
        "1. The Core Backbone: &lt;span class=&quot;tt&quot;&gt;AbstractThread&lt;/span&gt;"
        (hit "../index.html#autotoc_md3" true "" ∷ [])
    ∷ found "thread_20safe_20diagnostic_20stream_3a_20logstream_3"
        "7. Thread-Safe Diagnostic Stream: &lt;span class=&quot;tt&quot;&gt;LogStream&lt;/span&gt;"
        (hit "../index.html#autotoc_md9" true "" ∷ [])
    ∷ found "thread_20secure_20sockets_4"
        "4. Network Worker Thread: &lt;span class=&quot;tt&quot;&gt;Thread&lt;/span&gt; &amp;amp; Secure Sockets"
        (hit "../index.html#autotoc_md6" true "" ∷ [])
    ∷ found "thread_20signals_3a_20functionconnector_5"
        "2. Cross-Thread Signals: &lt;span class=&quot;tt&quot;&gt;FunctionConnector&lt;/span&gt;"
        (hit "../index.html#autotoc_md4" true "" ∷ [])
    ∷ found "thread_3a_20thread_20secure_20sockets_6"
        "4. Network Worker Thread: &lt;span class=&quot;tt&quot;&gt;Thread&lt;/span&gt; &amp;amp; Secure Sockets"
        (hit "../index.html#autotoc_md6" true "" ∷ [])
    ∷ found "threadpool_7"
        "6. Smart Task Distribution: &lt;span class=&quot;tt&quot;&gt;ThreadPool&lt;/span&gt;"
        (hit "../index.html#autotoc_md8" true "" ∷ [])
    ∷ found "tlscontext_8"
        "5. Cryptographic State &amp;amp; PKI: &lt;span class=&quot;tt&quot;&gt;TlsContext&lt;/span&gt;"
        (hit "../index.html#autotoc_md7" true "" ∷ [])
    ∷ []

unfoldable pub pages_16 : List Found
pages_16 =
    found "worker_20thread_3a_20thread_20secure_20sockets_0"
      "4. Network Worker Thread: &lt;span class=&quot;tt&quot;&gt;Thread&lt;/span&gt; &amp;amp; Secure Sockets"
      (hit "../index.html#autotoc_md6" true "" ∷ [])
    ∷ []
