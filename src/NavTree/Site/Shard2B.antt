-- ===== src/NavTree/Site/Shard2B.antt =====
-- Quarter 2 of an index file: pages and their places in the tree, docs/navtreeindex2.js.
use Prim.Native.String.{String}
use async_fw.Base.{ℕ, List, [], ◌∷◌}

unfoldable pub shard_2_b : List (String × List ℕ)
shard_2_b =
    ("classAsyncFw_1_1RrdServer.html", 2 ∷ 0 ∷ 0 ∷ 39 ∷ [])
    ∷ ("classAsyncFw_1_1RrdServer.html#a1d88715a189ea36663ca192b64886700", 2 ∷ 0 ∷ 0 ∷ 39 ∷ 4 ∷ [])
    ∷ ("classAsyncFw_1_1RrdServer.html#a36cdc4d3eb393265d357c727d31f18d5", 2 ∷ 0 ∷ 0 ∷ 39 ∷ 2 ∷ [])
    ∷ ("classAsyncFw_1_1RrdServer.html#a518ff8e41bae78f1b1c0e099514e56eb", 2 ∷ 0 ∷ 0 ∷ 39 ∷ 3 ∷ [])
    ∷ ("classAsyncFw_1_1RrdServer.html#a80621329e326c77a65c5e4e65efa511d", 2 ∷ 0 ∷ 0 ∷ 39 ∷ 0 ∷ [])
    ∷ ("classAsyncFw_1_1RrdServer.html#ad57e2c435b5730d56efe5615e31b0075", 2 ∷ 0 ∷ 0 ∷ 39 ∷ 1 ∷ [])
    ∷ ("classAsyncFw_1_1SystemProcess.html", 2 ∷ 0 ∷ 0 ∷ 40 ∷ [])
    ∷ (
      "classAsyncFw_1_1SystemProcess.html#a07450fc564490581360f8ff9244291c8",
      2 ∷ 0 ∷ 0 ∷ 40 ∷ 3 ∷ [],
    )
    ∷ (
      "classAsyncFw_1_1SystemProcess.html#a15a6e0feb095b9ad2ea2bdfb7014ca2c",
      2 ∷ 0 ∷ 0 ∷ 40 ∷ 10 ∷ [],
    )
    ∷ (
      "classAsyncFw_1_1SystemProcess.html#a2474831568ca17479f4b7b4350cb13c8",
      2 ∷ 0 ∷ 0 ∷ 40 ∷ 9 ∷ [],
    )
    ∷ (
      "classAsyncFw_1_1SystemProcess.html#a3916d3f3c7f90b7a6e099258daee8762",
      2 ∷ 0 ∷ 0 ∷ 40 ∷ 8 ∷ [],
    )
    ∷ (
      "classAsyncFw_1_1SystemProcess.html#a98555529994f67d993e103999604f1ed",
      2 ∷ 0 ∷ 0 ∷ 40 ∷ 7 ∷ [],
    )
    ∷ (
      "classAsyncFw_1_1SystemProcess.html#a9bed6483038544317152552027178459",
      2 ∷ 0 ∷ 0 ∷ 40 ∷ 4 ∷ [],
    )
    ∷ (
      "classAsyncFw_1_1SystemProcess.html#aacaa74369b6cc27a9f0cd29f6dd6fa18",
      2 ∷ 0 ∷ 0 ∷ 40 ∷ 6 ∷ [],
    )
    ∷ (
      "classAsyncFw_1_1SystemProcess.html#ab0bbc948a5d59acc1bfc2327cb74f4c1",
      2 ∷ 0 ∷ 0 ∷ 40 ∷ 5 ∷ [],
    )
    ∷ (
      "classAsyncFw_1_1SystemProcess.html#abbb594e48966f013c2efaf50e26b5e36",
      2 ∷ 0 ∷ 0 ∷ 40 ∷ 11 ∷ [],
    )
    ∷ (
      "classAsyncFw_1_1SystemProcess.html#acf60a585a89304fdb3580e9add06d155",
      2 ∷ 0 ∷ 0 ∷ 40 ∷ 1 ∷ [],
    )
    ∷ (
      "classAsyncFw_1_1SystemProcess.html#ae280edaf59815e2e4cbac2ba71382d21",
      2 ∷ 0 ∷ 0 ∷ 40 ∷ 2 ∷ [],
    )
    ∷ (
      "classAsyncFw_1_1SystemProcess.html#afad39352d4d8376d1304bc340a0cf32f",
      2 ∷ 0 ∷ 0 ∷ 40 ∷ 0 ∷ [],
    )
    ∷ (
      "classAsyncFw_1_1SystemProcess.html#afad39352d4d8376d1304bc340a0cf32fa49cb88a476197da70de9c7ea73b5d089",
      2 ∷ 0 ∷ 0 ∷ 40 ∷ 0 ∷ 4 ∷ [],
    )
    ∷ (
      "classAsyncFw_1_1SystemProcess.html#afad39352d4d8376d1304bc340a0cf32fa71589da9ec6d6bf72db63b0706ecfb60",
      2 ∷ 0 ∷ 0 ∷ 40 ∷ 0 ∷ 3 ∷ [],
    )
    ∷ (
      "classAsyncFw_1_1SystemProcess.html#afad39352d4d8376d1304bc340a0cf32fad676c3df6d4070608540d7160f773e1b",
      2 ∷ 0 ∷ 0 ∷ 40 ∷ 0 ∷ 1 ∷ [],
    )
    ∷ (
      "classAsyncFw_1_1SystemProcess.html#afad39352d4d8376d1304bc340a0cf32fae6056f73a5ee0f2e5e9a810511d30121",
      2 ∷ 0 ∷ 0 ∷ 40 ∷ 0 ∷ 0 ∷ [],
    )
    ∷ (
      "classAsyncFw_1_1SystemProcess.html#afad39352d4d8376d1304bc340a0cf32fafbad76ce6453263110ca967474dfa1a7",
      2 ∷ 0 ∷ 0 ∷ 40 ∷ 0 ∷ 2 ∷ [],
    )
    ∷ ("classAsyncFw_1_1Task.html", 2 ∷ 0 ∷ 0 ∷ 42 ∷ [])
    ∷ ("classAsyncFw_1_1Task.html#a66a8f9dd8f4f46945a073aef2d62a368", 2 ∷ 0 ∷ 0 ∷ 42 ∷ 0 ∷ [])
    ∷ ("classAsyncFw_1_1Task.html#af8d5f8f89323935f98976293c1b16300", 2 ∷ 0 ∷ 0 ∷ 42 ∷ 1 ∷ [])
    ∷ ("classAsyncFw_1_1Thread.html", 2 ∷ 0 ∷ 0 ∷ 13 ∷ [])
    ∷ ("classAsyncFw_1_1Thread.html#a2586807d64cba1eb6bd6af4e0cc4919a", 2 ∷ 0 ∷ 0 ∷ 13 ∷ 5 ∷ [])
    ∷ ("classAsyncFw_1_1Thread.html#a92780087225a95405529ddabbce2ae07", 2 ∷ 0 ∷ 0 ∷ 13 ∷ 6 ∷ [])
    ∷ ("classAsyncFw_1_1Thread.html#abac958eae1def0e3c0e32a7ebebc45eb", 2 ∷ 0 ∷ 0 ∷ 13 ∷ 3 ∷ [])
    ∷ ("classAsyncFw_1_1Thread.html#ad4c31cb77c83c080affcd0cda66debe4", 2 ∷ 0 ∷ 0 ∷ 13 ∷ 4 ∷ [])
    ∷ ("classAsyncFw_1_1Thread.html#ae03f85da53209734bdafe450f45e5d53", 2 ∷ 0 ∷ 0 ∷ 13 ∷ 1 ∷ [])
    ∷ ("classAsyncFw_1_1Thread.html#ae9fc9cf8baddcc8dfa0e14784918c4a5", 2 ∷ 0 ∷ 0 ∷ 13 ∷ 2 ∷ [])
    ∷ ("classAsyncFw_1_1Thread.html#afc5e422090767dd84020381fb9a4d490", 2 ∷ 0 ∷ 0 ∷ 13 ∷ 0 ∷ [])
    ∷ ("classAsyncFw_1_1ThreadPool.html", 2 ∷ 0 ∷ 0 ∷ 44 ∷ [])
    ∷ ("classAsyncFw_1_1ThreadPool.html#a02cf5b98df2bbd01b4757e09fceece49", 2 ∷ 0 ∷ 0 ∷ 44 ∷ 0 ∷ [])
    ∷ ("classAsyncFw_1_1ThreadPool.html#a4e73e16c0af130d6311c29952b11f720", 2 ∷ 0 ∷ 0 ∷ 44 ∷ 2 ∷ [])
    ∷ ("classAsyncFw_1_1ThreadPool.html#ad7f14a964e683f021a4d6c1c0a8bbf5d", 2 ∷ 0 ∷ 0 ∷ 44 ∷ 1 ∷ [])
    ∷ ("classAsyncFw_1_1Timer.html", 2 ∷ 0 ∷ 0 ∷ 45 ∷ [])
    ∷ ("classAsyncFw_1_1Timer.html#a14d02d88bd3682afd7c8fd72cc670e46", 2 ∷ 0 ∷ 0 ∷ 45 ∷ 0 ∷ [])
    ∷ ("classAsyncFw_1_1Timer.html#a63f0eb44b27402196590a03781515dba", 2 ∷ 0 ∷ 0 ∷ 45 ∷ 1 ∷ [])
    ∷ ("classAsyncFw_1_1Timer.html#aad1874fc8c5f41c278e4e4de81609e54", 2 ∷ 0 ∷ 0 ∷ 45 ∷ 2 ∷ [])
    ∷ ("classAsyncFw_1_1Timer.html#acf307d575a38d2b3bb852202d0126fcd", 2 ∷ 0 ∷ 0 ∷ 45 ∷ 3 ∷ [])
    ∷ ("classAsyncFw_1_1TlsContext.html", 2 ∷ 0 ∷ 0 ∷ 14 ∷ [])
    ∷ ("classAsyncFw_1_1TlsContext.html#a0355cba7c5bc6468bc9b53e0a21cfaef", 2 ∷ 0 ∷ 0 ∷ 14 ∷ 8 ∷ [])
    ∷ ("classAsyncFw_1_1TlsContext.html#a0c268a29a857a658f0ed1254cbff746b", 2 ∷ 0 ∷ 0 ∷ 14 ∷ 3 ∷ [])
    ∷ ("classAsyncFw_1_1TlsContext.html#a10b3110e2d30a54d84c276716fb7d10a", 2 ∷ 0 ∷ 0 ∷ 14 ∷ 9 ∷ [])
    ∷ ("classAsyncFw_1_1TlsContext.html#a1f84d5908bb3af689637ef250ddb1467", 2 ∷ 0 ∷ 0 ∷ 14 ∷ 2 ∷ [])
    ∷ (
      "classAsyncFw_1_1TlsContext.html#a305eeaf7d1cab7631a9a29ddc9b937b8",
      2 ∷ 0 ∷ 0 ∷ 14 ∷ 13 ∷ [],
    )
    ∷ ("classAsyncFw_1_1TlsContext.html#a34b8c61895eaf10b54060df0feb54de8", 2 ∷ 0 ∷ 0 ∷ 14 ∷ 0 ∷ [])
    ∷ (
      "classAsyncFw_1_1TlsContext.html#a34b8c61895eaf10b54060df0feb54de8a09006eb216323640dc70de9a126e31f5",
      2 ∷ 0 ∷ 0 ∷ 14 ∷ 0 ∷ 0 ∷ [],
    )
    ∷ (
      "classAsyncFw_1_1TlsContext.html#a41b30deddf357c3196a88ec491954261",
      2 ∷ 0 ∷ 0 ∷ 14 ∷ 19 ∷ [],
    )
    ∷ (
      "classAsyncFw_1_1TlsContext.html#a61e8dab3c3cf42cb434191c252a1f4ab",
      2 ∷ 0 ∷ 0 ∷ 14 ∷ 22 ∷ [],
    )
    ∷ (
      "classAsyncFw_1_1TlsContext.html#a6d9871b944dda7508bf311ed1de76031",
      2 ∷ 0 ∷ 0 ∷ 14 ∷ 15 ∷ [],
    )
    ∷ (
      "classAsyncFw_1_1TlsContext.html#a7e91efeef7720c709f396b8322b27c15",
      2 ∷ 0 ∷ 0 ∷ 14 ∷ 17 ∷ [],
    )
    ∷ ("classAsyncFw_1_1TlsContext.html#a84b0d6eb6ccb1e73664cb059e4ae0bb6", 2 ∷ 0 ∷ 0 ∷ 14 ∷ 7 ∷ [])
    ∷ (
      "classAsyncFw_1_1TlsContext.html#a8ff0baee1fbf9337ea367d1da7c5e475",
      2 ∷ 0 ∷ 0 ∷ 14 ∷ 21 ∷ [],
    )
    ∷ ("classAsyncFw_1_1TlsContext.html#a98271f22f48785585546a63f4e3f22af", 2 ∷ 0 ∷ 0 ∷ 14 ∷ 6 ∷ [])
    ∷ (
      "classAsyncFw_1_1TlsContext.html#aa737deca3889536ad8de72d46694afd6",
      2 ∷ 0 ∷ 0 ∷ 14 ∷ 18 ∷ [],
    )
    ∷ []
