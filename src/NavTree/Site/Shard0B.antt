-- ===== src/NavTree/Site/Shard0B.antt =====
-- Quarter 2 of an index file: pages and their places in the tree, docs/navtreeindex0.js.
use Prim.Native.String.{String}
use async_fw.Base.{ℕ, List, [], ◌∷◌}

unfoldable pub shard_0_b : List (String × List ℕ)
shard_0_b =
    ("MulticastDns_8h_source.html", 3 ∷ 0 ∷ 1 ∷ 18 ∷ [])
    ∷ ("PollNotifier_8h.html", 3 ∷ 0 ∷ 1 ∷ 19 ∷ [])
    ∷ ("PollNotifier_8h_source.html", 3 ∷ 0 ∷ 1 ∷ 19 ∷ [])
    ∷ ("RrdClient_8h.html", 3 ∷ 0 ∷ 1 ∷ 21 ∷ [])
    ∷ ("RrdClient_8h_source.html", 3 ∷ 0 ∷ 1 ∷ 21 ∷ [])
    ∷ ("RrdServer_8h.html", 3 ∷ 0 ∷ 1 ∷ 22 ∷ [])
    ∷ ("RrdServer_8h_source.html", 3 ∷ 0 ∷ 1 ∷ 22 ∷ [])
    ∷ ("Rrd_8h.html", 3 ∷ 0 ∷ 1 ∷ 20 ∷ [])
    ∷ ("Rrd_8h_source.html", 3 ∷ 0 ∷ 1 ∷ 20 ∷ [])
    ∷ ("Socket_2main_8cpp-example.html", 4 ∷ 17 ∷ [])
    ∷ ("Stdin_2main_8cpp-example.html", 4 ∷ 18 ∷ [])
    ∷ ("SystemProcess_2main_8cpp-example.html", 4 ∷ 19 ∷ [])
    ∷ ("SystemProcess_8h.html", 3 ∷ 0 ∷ 1 ∷ 23 ∷ [])
    ∷ ("SystemProcess_8h_source.html", 3 ∷ 0 ∷ 1 ∷ 23 ∷ [])
    ∷ ("Task_8h.html", 3 ∷ 0 ∷ 1 ∷ 24 ∷ [])
    ∷ ("Task_8h_source.html", 3 ∷ 0 ∷ 1 ∷ 24 ∷ [])
    ∷ ("ThreadInvoke_2main_8cpp-example.html", 4 ∷ 12 ∷ [])
    ∷ ("ThreadPool_2main_8cpp-example.html", 4 ∷ 20 ∷ [])
    ∷ ("ThreadPool_8h.html", 3 ∷ 0 ∷ 1 ∷ 25 ∷ [])
    ∷ ("ThreadPool_8h_source.html", 3 ∷ 0 ∷ 1 ∷ 25 ∷ [])
    ∷ ("Thread_8h.html", 3 ∷ 0 ∷ 0 ∷ 10 ∷ [])
    ∷ ("Thread_8h_source.html", 3 ∷ 0 ∷ 0 ∷ 10 ∷ [])
    ∷ ("Timer_2main_8cpp-example.html", 4 ∷ 21 ∷ [])
    ∷ ("Timer_8h.html", 3 ∷ 0 ∷ 1 ∷ 26 ∷ [])
    ∷ ("Timer_8h_source.html", 3 ∷ 0 ∷ 1 ∷ 26 ∷ [])
    ∷ ("TlsContext_2main_8cpp-example.html", 4 ∷ 22 ∷ [])
    ∷ ("TlsContext_8h.html", 3 ∷ 0 ∷ 0 ∷ 11 ∷ [])
    ∷ ("TlsContext_8h_source.html", 3 ∷ 0 ∷ 0 ∷ 11 ∷ [])
    ∷ ("Uart_2main_8cpp-example.html", 4 ∷ 23 ∷ [])
    ∷ ("Version_8h.html", 3 ∷ 0 ∷ 1 ∷ 27 ∷ [])
    ∷ ("Version_8h_source.html", 3 ∷ 0 ∷ 1 ∷ 27 ∷ [])
    ∷ ("annotated.html", 2 ∷ 0 ∷ [])
    ∷ ("classAsyncFw_1_1AbstractFunctionConnector.html", 2 ∷ 0 ∷ 0 ∷ 8 ∷ [])
    ∷ (
      "classAsyncFw_1_1AbstractFunctionConnector.html#ab248bd16cbfcac609f58d401abec4368",
      2 ∷ 0 ∷ 0 ∷ 8 ∷ 1 ∷ [],
    )
    ∷ (
      "classAsyncFw_1_1AbstractFunctionConnector.html#ab248bd16cbfcac609f58d401abec4368a067289a8bc60cc7b0be0e021db9ce81d",
      2 ∷ 0 ∷ 0 ∷ 8 ∷ 1 ∷ 6 ∷ [],
    )
    ∷ (
      "classAsyncFw_1_1AbstractFunctionConnector.html#ab248bd16cbfcac609f58d401abec4368a3b1695a20470728ef441d8ccdd549b78",
      2 ∷ 0 ∷ 0 ∷ 8 ∷ 1 ∷ 4 ∷ [],
    )
    ∷ (
      "classAsyncFw_1_1AbstractFunctionConnector.html#ab248bd16cbfcac609f58d401abec4368a480f988213a099791809a06ce8e412ff",
      2 ∷ 0 ∷ 0 ∷ 8 ∷ 1 ∷ 0 ∷ [],
    )
    ∷ (
      "classAsyncFw_1_1AbstractFunctionConnector.html#ab248bd16cbfcac609f58d401abec4368a5d08e36148e4f87ea06266376ac65da9",
      2 ∷ 0 ∷ 0 ∷ 8 ∷ 1 ∷ 2 ∷ [],
    )
    ∷ (
      "classAsyncFw_1_1AbstractFunctionConnector.html#ab248bd16cbfcac609f58d401abec4368aa337dbe9151a9446d65ecebf21f57cc7",
      2 ∷ 0 ∷ 0 ∷ 8 ∷ 1 ∷ 3 ∷ [],
    )
    ∷ (
      "classAsyncFw_1_1AbstractFunctionConnector.html#ab248bd16cbfcac609f58d401abec4368af29d50765264f3f426d354883428c288",
      2 ∷ 0 ∷ 0 ∷ 8 ∷ 1 ∷ 5 ∷ [],
    )
    ∷ (
      "classAsyncFw_1_1AbstractFunctionConnector.html#ab248bd16cbfcac609f58d401abec4368aff480e11cf0224228dd92a034987e47a",
      2 ∷ 0 ∷ 0 ∷ 8 ∷ 1 ∷ 1 ∷ [],
    )
    ∷ ("classAsyncFw_1_1AbstractFunctionConnector_1_1Connection.html", 2 ∷ 0 ∷ 0 ∷ 8 ∷ 0 ∷ [])
    ∷ (
      "classAsyncFw_1_1AbstractFunctionConnector_1_1Connection.html#a860b83046c90e62d768e0acde74626c6",
      2 ∷ 0 ∷ 0 ∷ 8 ∷ 0 ∷ 0 ∷ [],
    )
    ∷ (
      "classAsyncFw_1_1AbstractFunctionConnector_1_1Connection.html#a860b83046c90e62d768e0acde74626c6a5c9e5da34d6f0f6d7d4f11cdbbac4f97",
      2 ∷ 0 ∷ 0 ∷ 8 ∷ 0 ∷ 0 ∷ 3 ∷ [],
    )
    ∷ (
      "classAsyncFw_1_1AbstractFunctionConnector_1_1Connection.html#a860b83046c90e62d768e0acde74626c6a64d3a4cb989751b7834f3fa0cb7a0021",
      2 ∷ 0 ∷ 0 ∷ 8 ∷ 0 ∷ 0 ∷ 1 ∷ [],
    )
    ∷ (
      "classAsyncFw_1_1AbstractFunctionConnector_1_1Connection.html#a860b83046c90e62d768e0acde74626c6a6c561775a673adbed77c380ee036a01f",
      2 ∷ 0 ∷ 0 ∷ 8 ∷ 0 ∷ 0 ∷ 2 ∷ [],
    )
    ∷ (
      "classAsyncFw_1_1AbstractFunctionConnector_1_1Connection.html#a860b83046c90e62d768e0acde74626c6aa6ac69ca7e3f98af70b7ed067e4f9bdc",
      2 ∷ 0 ∷ 0 ∷ 8 ∷ 0 ∷ 0 ∷ 4 ∷ [],
    )
    ∷ (
      "classAsyncFw_1_1AbstractFunctionConnector_1_1Connection.html#a860b83046c90e62d768e0acde74626c6af3aceaa2c172acce94b8685ce05697b7",
      2 ∷ 0 ∷ 0 ∷ 8 ∷ 0 ∷ 0 ∷ 0 ∷ [],
    )
    ∷ ("classAsyncFw_1_1AbstractInstance.html", 2 ∷ 0 ∷ 0 ∷ 29 ∷ [])
    ∷ (
      "classAsyncFw_1_1AbstractInstance.html#a1809713ff787e9f05d8458d15493146a",
      2 ∷ 0 ∷ 0 ∷ 29 ∷ 1 ∷ [],
    )
    ∷ (
      "classAsyncFw_1_1AbstractInstance.html#a2cddd3e61ae002fa6be00ae760cb5123",
      2 ∷ 0 ∷ 0 ∷ 29 ∷ 2 ∷ [],
    )
    ∷ (
      "classAsyncFw_1_1AbstractInstance.html#a884cd39afa818f16031336cb8bc87ef1",
      2 ∷ 0 ∷ 0 ∷ 29 ∷ 0 ∷ [],
    )
    ∷ (
      "classAsyncFw_1_1AbstractInstance.html#ad4ae1bfcd37c2450b85b35257f92360f",
      2 ∷ 0 ∷ 0 ∷ 29 ∷ 3 ∷ [],
    )
    ∷ ("classAsyncFw_1_1AbstractLog.html", 2 ∷ 0 ∷ 0 ∷ 32 ∷ [])
    ∷ (
      "classAsyncFw_1_1AbstractLog.html#a036a273ebd60a9ee365bae1d8ecb83ea",
      2 ∷ 0 ∷ 0 ∷ 32 ∷ 0 ∷ [],
    )
    ∷ (
      "classAsyncFw_1_1AbstractLog.html#a0637ac2a3c482fd9c0d059c62d718a12",
      2 ∷ 0 ∷ 0 ∷ 32 ∷ 10 ∷ [],
    )
    ∷ (
      "classAsyncFw_1_1AbstractLog.html#a4e3e81544937c12613ad37b12d7f14b0",
      2 ∷ 0 ∷ 0 ∷ 32 ∷ 4 ∷ [],
    )
    ∷ (
      "classAsyncFw_1_1AbstractLog.html#a6cb17ac08086ff708d7b3d9ac07a7680",
      2 ∷ 0 ∷ 0 ∷ 32 ∷ 5 ∷ [],
    )
    ∷ (
      "classAsyncFw_1_1AbstractLog.html#a7e3f17c4c8069f79fe143da589ecc87c",
      2 ∷ 0 ∷ 0 ∷ 32 ∷ 2 ∷ [],
    )
    ∷ (
      "classAsyncFw_1_1AbstractLog.html#a851f59ea9d9019403e3adffc04ddd07a",
      2 ∷ 0 ∷ 0 ∷ 32 ∷ 1 ∷ [],
    )
    ∷ (
      "classAsyncFw_1_1AbstractLog.html#a872f1ea526aea7e961ce1eba43a15303",
      2 ∷ 0 ∷ 0 ∷ 32 ∷ 12 ∷ [],
    )
    ∷ (
      "classAsyncFw_1_1AbstractLog.html#a8dd93228e8424dccdd74adbb6422bd78",
      2 ∷ 0 ∷ 0 ∷ 32 ∷ 13 ∷ [],
    )
    ∷ (
      "classAsyncFw_1_1AbstractLog.html#a9356538116eb8df414110f0dfa29777a",
      2 ∷ 0 ∷ 0 ∷ 32 ∷ 6 ∷ [],
    )
    ∷ []
