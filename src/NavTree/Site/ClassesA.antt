-- ===== src/NavTree/Site/ClassesA.antt =====
-- The lists of members that the site loads for a class, docs/class*.js.
use async_fw.Base.{some}
use async_fw.NavTree.Entries.{entry, leaf, script, items, Entries, end, ◌⨾◌}

unfoldable pub class_abstract_function_connector : Entries
class_abstract_function_connector =
    entry "Connection" (some "classAsyncFw_1_1AbstractFunctionConnector_1_1Connection.html")
      (script "classAsyncFw_1_1AbstractFunctionConnector_1_1Connection")
    ⨾ entry "ConnectionPolicy"
        (some "classAsyncFw_1_1AbstractFunctionConnector.html#ab248bd16cbfcac609f58d401abec4368")
        (items (
          entry "Auto"
            (some
              "classAsyncFw_1_1AbstractFunctionConnector.html#ab248bd16cbfcac609f58d401abec4368a480f988213a099791809a06ce8e412ff")
            leaf
          ⨾ entry "Direct"
              (some
                "classAsyncFw_1_1AbstractFunctionConnector.html#ab248bd16cbfcac609f58d401abec4368aff480e11cf0224228dd92a034987e47a")
              leaf
          ⨾ entry "Queued"
              (some
                "classAsyncFw_1_1AbstractFunctionConnector.html#ab248bd16cbfcac609f58d401abec4368a5d08e36148e4f87ea06266376ac65da9")
              leaf
          ⨾ entry "Sync"
              (some
                "classAsyncFw_1_1AbstractFunctionConnector.html#ab248bd16cbfcac609f58d401abec4368aa337dbe9151a9446d65ecebf21f57cc7")
              leaf
          ⨾ entry "DirectOnly"
              (some
                "classAsyncFw_1_1AbstractFunctionConnector.html#ab248bd16cbfcac609f58d401abec4368a3b1695a20470728ef441d8ccdd549b78")
              leaf
          ⨾ entry "QueuedOnly"
              (some
                "classAsyncFw_1_1AbstractFunctionConnector.html#ab248bd16cbfcac609f58d401abec4368af29d50765264f3f426d354883428c288")
              leaf
          ⨾ entry "SyncOnly"
              (some
                "classAsyncFw_1_1AbstractFunctionConnector.html#ab248bd16cbfcac609f58d401abec4368a067289a8bc60cc7b0be0e021db9ce81d")
              leaf
          ⨾ end))
    ⨾ end

unfoldable pub class_abstract_function_connector_connection : Entries
class_abstract_function_connector_connection =
    entry "Type"
      (some
        "classAsyncFw_1_1AbstractFunctionConnector_1_1Connection.html#a860b83046c90e62d768e0acde74626c6")
      (items (
        entry "Auto"
          (some
            "classAsyncFw_1_1AbstractFunctionConnector_1_1Connection.html#a860b83046c90e62d768e0acde74626c6af3aceaa2c172acce94b8685ce05697b7")
          leaf
        ⨾ entry "Direct"
            (some
              "classAsyncFw_1_1AbstractFunctionConnector_1_1Connection.html#a860b83046c90e62d768e0acde74626c6a64d3a4cb989751b7834f3fa0cb7a0021")
            leaf
        ⨾ entry "Queued"
            (some
              "classAsyncFw_1_1AbstractFunctionConnector_1_1Connection.html#a860b83046c90e62d768e0acde74626c6a6c561775a673adbed77c380ee036a01f")
            leaf
        ⨾ entry "Sync"
            (some
              "classAsyncFw_1_1AbstractFunctionConnector_1_1Connection.html#a860b83046c90e62d768e0acde74626c6a5c9e5da34d6f0f6d7d4f11cdbbac4f97")
            leaf
        ⨾ entry "Default"
            (some
              "classAsyncFw_1_1AbstractFunctionConnector_1_1Connection.html#a860b83046c90e62d768e0acde74626c6aa6ac69ca7e3f98af70b7ed067e4f9bdc")
            leaf
        ⨾ end))
    ⨾ end

unfoldable pub class_abstract_instance : Entries
class_abstract_instance =
    entry "AbstractInstance"
      (some "classAsyncFw_1_1AbstractInstance.html#a884cd39afa818f16031336cb8bc87ef1") leaf
    ⨾ entry "~AbstractInstance"
        (some "classAsyncFw_1_1AbstractInstance.html#a1809713ff787e9f05d8458d15493146a") leaf
    ⨾ entry "destroyValue"
        (some "classAsyncFw_1_1AbstractInstance.html#a2cddd3e61ae002fa6be00ae760cb5123") leaf
    ⨾ entry "created"
        (some "classAsyncFw_1_1AbstractInstance.html#ad4ae1bfcd37c2450b85b35257f92360f") leaf
    ⨾ end

unfoldable pub class_abstract_log : Entries
class_abstract_log =
    entry "~AbstractLog" (some "classAsyncFw_1_1AbstractLog.html#a036a273ebd60a9ee365bae1d8ecb83ea")
      leaf
    ⨾ entry "append" (some "classAsyncFw_1_1AbstractLog.html#a851f59ea9d9019403e3adffc04ddd07a")
        leaf
    ⨾ entry "setExtendOut"
        (some "classAsyncFw_1_1AbstractLog.html#a7e3f17c4c8069f79fe143da589ecc87c") leaf
    ⨾ entry "setColorOut"
        (some "classAsyncFw_1_1AbstractLog.html#ad3d69f8e4e65e11f777961ff199cc305") leaf
    ⨾ entry "setNotesOut"
        (some "classAsyncFw_1_1AbstractLog.html#a4e3e81544937c12613ad37b12d7f14b0") leaf
    ⨾ entry "setHideDuplicates"
        (some "classAsyncFw_1_1AbstractLog.html#a6cb17ac08086ff708d7b3d9ac07a7680") leaf
    ⨾ entry "setLevel" (some "classAsyncFw_1_1AbstractLog.html#a9356538116eb8df414110f0dfa29777a")
        leaf
    ⨾ entry "setConsoleLevel"
        (some "classAsyncFw_1_1AbstractLog.html#aca18be3a6c0f1c681fffc475f2eba5ac") leaf
    ⨾ entry "setFilter" (some "classAsyncFw_1_1AbstractLog.html#ab0cce5578235f60f5687f5ac352c0c5c")
        leaf
    ⨾ entry "output" (some "classAsyncFw_1_1AbstractLog.html#af5285b3d69b6af192fb2656d44b2e122")
        leaf
    ⨾ entry "save" (some "classAsyncFw_1_1AbstractLog.html#a0637ac2a3c482fd9c0d059c62d718a12") leaf
    ⨾ entry "append" (some "classAsyncFw_1_1AbstractLog.html#a9d4074dfb0cd3d2f54bc1301f6dcdfb8")
        leaf
    ⨾ entry "flush" (some "classAsyncFw_1_1AbstractLog.html#a872f1ea526aea7e961ce1eba43a15303") leaf
    ⨾ entry "finality" (some "classAsyncFw_1_1AbstractLog.html#a8dd93228e8424dccdd74adbb6422bd78")
        leaf
    ⨾ end
