-- ===== src/NavTree/Site/Shard2D.antt =====
-- Quarter 4 of an index file: pages and their places in the tree, docs/navtreeindex2.js.
use Prim.Native.String.{String}
use async_fw.Base.{ℕ, List, [], ◌∷◌}

unfoldable pub shard_2_d : List (String × List ℕ)
shard_2_d =
    ("functions_type.html", 2 ∷ 3 ∷ 3 ∷ [])
    ∷ ("functions_u.html", 2 ∷ 3 ∷ 0 ∷ 19 ∷ [])
    ∷ ("functions_v.html", 2 ∷ 3 ∷ 0 ∷ 20 ∷ [])
    ∷ ("functions_vars.html", 2 ∷ 3 ∷ 2 ∷ [])
    ∷ ("functions_w.html", 2 ∷ 3 ∷ 0 ∷ 21 ∷ [])
    ∷ ("functions_~.html", 2 ∷ 3 ∷ 0 ∷ 22 ∷ [])
    ∷ ("group__coroutine__api.html", 1 ∷ 0 ∷ [])
    ∷ ("group__coroutine__api.html#ga0005f3892c4f008098e0ee2634481d5a", 1 ∷ 0 ∷ 0 ∷ [])
    ∷ ("group__coroutine__api.html#ga36873f186789bdcd404e10d179081bc4", 1 ∷ 0 ∷ 2 ∷ [])
    ∷ ("group__coroutine__api.html#ga37b3a970310b55e69ed1cb7aa9ab3646", 1 ∷ 0 ∷ 4 ∷ [])
    ∷ ("group__coroutine__api.html#ga4000deb9d729812b431fc3345fca5eba", 1 ∷ 0 ∷ 3 ∷ [])
    ∷ ("group__coroutine__api.html#gad114e5309a86890f0fa504ff94f3edef", 1 ∷ 0 ∷ 1 ∷ [])
    ∷ ("hierarchy.html", 2 ∷ 2 ∷ [])
    ∷ ("index.html", [])
    ∷ ("index.html#autotoc_md10", 0 ∷ 7 ∷ [])
    ∷ ("index.html#autotoc_md11", 0 ∷ 8 ∷ [])
    ∷ ("index.html#autotoc_md2", 0 ∷ [])
    ∷ ("index.html#autotoc_md3", 0 ∷ 0 ∷ [])
    ∷ ("index.html#autotoc_md4", 0 ∷ 1 ∷ [])
    ∷ ("index.html#autotoc_md5", 0 ∷ 2 ∷ [])
    ∷ ("index.html#autotoc_md6", 0 ∷ 3 ∷ [])
    ∷ ("index.html#autotoc_md7", 0 ∷ 4 ∷ [])
    ∷ ("index.html#autotoc_md8", 0 ∷ 5 ∷ [])
    ∷ ("index.html#autotoc_md9", 0 ∷ 6 ∷ [])
    ∷ ("invocable_8hpp_source.html", 3 ∷ 0 ∷ 0 ∷ 8 ∷ [])
    ∷ ("log-types_8hpp_source.html", 3 ∷ 0 ∷ 1 ∷ 14 ∷ [])
    ∷ ("mdns-types_8h_source.html", 3 ∷ 0 ∷ 1 ∷ 17 ∷ [])
    ∷ ("pages.html", [])
    ∷ ("structAsyncFw_1_1AnyData.html", 2 ∷ 0 ∷ 0 ∷ 3 ∷ [])
    ∷ ("structAsyncFw_1_1AnyData.html#a667ea182dec03e9ca81e86cdc7db8842", 2 ∷ 0 ∷ 0 ∷ 3 ∷ 0 ∷ [])
    ∷ ("structAsyncFw_1_1AnyData.html#a6d5534e474c91c9e0760eb80e8fdeda8", 2 ∷ 0 ∷ 0 ∷ 3 ∷ 1 ∷ [])
    ∷ ("structAsyncFw_1_1AnyData.html#a9d604c8e053676ded700990eae9ff67f", 2 ∷ 0 ∷ 0 ∷ 3 ∷ 3 ∷ [])
    ∷ ("structAsyncFw_1_1AnyData.html#aa6d2c3488a44e34e25a0971b01a27b3c", 2 ∷ 0 ∷ 0 ∷ 3 ∷ 2 ∷ [])
    ∷ ("structAsyncFw_1_1AnyData.html#adc2b97818be013fcf912ca9c8e086fa3", 2 ∷ 0 ∷ 0 ∷ 3 ∷ 6 ∷ [])
    ∷ ("structAsyncFw_1_1AnyData.html#aebf00018fdebd3ad5e628f349f09f0e2", 2 ∷ 0 ∷ 0 ∷ 3 ∷ 5 ∷ [])
    ∷ ("structAsyncFw_1_1AnyData.html#af4204174192d3b8c2f83dda18366a953", 2 ∷ 0 ∷ 0 ∷ 3 ∷ 4 ∷ [])
    ∷ ("structAsyncFw_1_1ApplicationNotifier_1_1Value.html", 2 ∷ 0 ∷ 0 ∷ 16 ∷ 0 ∷ [])
    ∷ ("structAsyncFw_1_1CoroutineAwait.html", 2 ∷ 0 ∷ 0 ∷ 18 ∷ [])
    ∷ ("structAsyncFw_1_1CoroutineInvokeAwait.html", 2 ∷ 0 ∷ 0 ∷ 19 ∷ [])
    ∷ ("structAsyncFw_1_1CoroutineTask.html", 2 ∷ 0 ∷ 0 ∷ 17 ∷ [])
    ∷ (
      "structAsyncFw_1_1CoroutineTask.html#a2a9141689d60da24339465aa0d225a27",
      2 ∷ 0 ∷ 0 ∷ 17 ∷ 1 ∷ [],
    )
    ∷ (
      "structAsyncFw_1_1CoroutineTask.html#a820a0a3410c4a14a71ad3599f46c1bb0",
      2 ∷ 0 ∷ 0 ∷ 17 ∷ 2 ∷ [],
    )
    ∷ ("structAsyncFw_1_1CoroutineTask_1_1promise__type.html", 2 ∷ 0 ∷ 0 ∷ 17 ∷ 0 ∷ [])
    ∷ (
      "structAsyncFw_1_1CoroutineTask_1_1promise__type.html#a6ef8c84c53068677172b21f5e08aa0b7",
      2 ∷ 0 ∷ 0 ∷ 17 ∷ 0 ∷ 0 ∷ [],
    )
    ∷ ("structAsyncFw_1_1FunctionConnector_1_1Policy.html", 2 ∷ 0 ∷ 0 ∷ 9 ∷ 0 ∷ [])
    ∷ ("structAsyncFw_1_1LogStream_1_1Message.html", 2 ∷ 0 ∷ 0 ∷ 12 ∷ 0 ∷ [])
    ∷ (
      "structAsyncFw_1_1LogStream_1_1Message.html#a4b2b2b0ff46ffb2a1f949f4953b34895",
      2 ∷ 0 ∷ 0 ∷ 12 ∷ 0 ∷ 1 ∷ [],
    )
    ∷ (
      "structAsyncFw_1_1LogStream_1_1Message.html#a7d55dbc7e3fd3c5b106977df3ca2bbbb",
      2 ∷ 0 ∷ 0 ∷ 12 ∷ 0 ∷ 3 ∷ [],
    )
    ∷ (
      "structAsyncFw_1_1LogStream_1_1Message.html#abac2923c4b2c7076a731b88df2420fa5",
      2 ∷ 0 ∷ 0 ∷ 12 ∷ 0 ∷ 4 ∷ [],
    )
    ∷ (
      "structAsyncFw_1_1LogStream_1_1Message.html#af6373a2f7362ff25d5341e5c373e1554",
      2 ∷ 0 ∷ 0 ∷ 12 ∷ 0 ∷ 2 ∷ [],
    )
    ∷ (
      "structAsyncFw_1_1LogStream_1_1Message.html#afbf65018f5c11d8d8204a0b47cee4207",
      2 ∷ 0 ∷ 0 ∷ 12 ∷ 0 ∷ 0 ∷ [],
    )
    ∷ ("structAsyncFw_1_1MulticastDns_1_1Host.html", 2 ∷ 0 ∷ 0 ∷ 35 ∷ 0 ∷ [])
    ∷ (
      "structAsyncFw_1_1MulticastDns_1_1Host.html#a153d28d6f64ff9992efef53a035d35c3",
      2 ∷ 0 ∷ 0 ∷ 35 ∷ 0 ∷ 2 ∷ [],
    )
    ∷ (
      "structAsyncFw_1_1MulticastDns_1_1Host.html#a505099c452dad4bfcaa5e1bdc3f56f82",
      2 ∷ 0 ∷ 0 ∷ 35 ∷ 0 ∷ 0 ∷ [],
    )
    ∷ (
      "structAsyncFw_1_1MulticastDns_1_1Host.html#a52a728b597d34fc89757944f97a002b8",
      2 ∷ 0 ∷ 0 ∷ 35 ∷ 0 ∷ 4 ∷ [],
    )
    ∷ (
      "structAsyncFw_1_1MulticastDns_1_1Host.html#a57f0b04e6bb05cc48b7c205c959ec964",
      2 ∷ 0 ∷ 0 ∷ 35 ∷ 0 ∷ 1 ∷ [],
    )
    ∷ (
      "structAsyncFw_1_1MulticastDns_1_1Host.html#a987597239d178d34f2bea34880e11cd8",
      2 ∷ 0 ∷ 0 ∷ 35 ∷ 0 ∷ 3 ∷ [],
    )
    ∷ ("structAsyncFw_1_1Version.html", 2 ∷ 0 ∷ 0 ∷ 46 ∷ [])
    ∷ ("topics.html", 1 ∷ [])
    ∷ []
