-- ===== src/NavTree/Site/Root.antt =====
-- The root of the tree and the first pages of the index files, docs/navtreedata.js.
use async_fw.Base.{some, List, [], ◌∷◌}
use Prim.Native.String.{String}
use async_fw.NavTree.Entries.{entry, leaf, script, items, Entries, end, ◌⨾◌}

unfoldable pub navtree : Entries
navtree =
    entry "AsyncFw" (some "index.html") (
      items (
        entry "Core Architecture &amp; Components" (some "index.html#autotoc_md2") (
          items (
            entry "1. The Core Backbone: <span class=\"tt\">AbstractThread</span>"
              (some "index.html#autotoc_md3") leaf
            ⨾ entry "2. Cross-Thread Signals: <span class=\"tt\">FunctionConnector</span>"
                (some "index.html#autotoc_md4") leaf
            ⨾ entry "3. Deep Coroutine Orchestration &amp; RPC: <span class=\"tt\">coInvoke</span>"
                (some "index.html#autotoc_md5") leaf
            ⨾ entry
                "4. Network Worker Thread: <span class=\"tt\">Thread</span> &amp; Secure Sockets"
                (some "index.html#autotoc_md6") leaf
            ⨾ entry "5. Cryptographic State &amp; PKI: <span class=\"tt\">TlsContext</span>"
                (some "index.html#autotoc_md7") leaf
            ⨾ entry "6. Smart Task Distribution: <span class=\"tt\">ThreadPool</span>"
                (some "index.html#autotoc_md8") leaf
            ⨾ entry "7. Thread-Safe Diagnostic Stream: <span class=\"tt\">LogStream</span>"
                (some "index.html#autotoc_md9") leaf
            ⨾ entry "8. The Application Master: <span class=\"tt\">MainThread</span>"
                (some "index.html#autotoc_md10") leaf
            ⨾ entry "9. Asynchronous Service Discovery: <span class=\"tt\">MulticastDns</span>"
                (some "index.html#autotoc_md11") leaf
            ⨾ end))
        ⨾ entry "Topics" (some "topics.html") (script "topics")
        ⨾ entry "Classes" (some "annotated.html") (
            items (
              entry "Class List" (some "annotated.html") (script "annotated_dup")
              ⨾ entry "Class Index" (some "classes.html") leaf
              ⨾ entry "Class Hierarchy" (some "hierarchy.html") (script "hierarchy")
              ⨾ entry "Class Members" (some "functions.html") (
                  items (
                    entry "All" (some "functions.html") (script "functions_dup")
                    ⨾ entry "Functions" (some "functions_func.html") (script "functions_func")
                    ⨾ entry "Variables" (some "functions_vars.html") leaf
                    ⨾ entry "Typedefs" (some "functions_type.html") leaf
                    ⨾ entry "Enumerations" (some "functions_enum.html") leaf
                    ⨾ entry "Enumerator" (some "functions_eval.html") leaf
                    ⨾ end))
              ⨾ end))
        ⨾ entry "Files" (some "files.html")
            (items (entry "File List" (some "files.html") (script "files_dup") ⨾ end))
        ⨾ entry "Examples" (some "examples.html") (script "examples")
        ⨾ end))
    ⨾ end

unfoldable pub navtreeindex : List String
navtreeindex =
    "AbstractSocket_8h.html"
    ∷ "classAsyncFw_1_1AddressResolver.html#a9a5b78be91762ae5adc7f19aede8a662"
    ∷ "classAsyncFw_1_1LogStream.html#afa2f6c5311ced6b973d39d6e5ced5731a66e8e44e1adfebd567c25c6611a5e418"
    ∷ []
