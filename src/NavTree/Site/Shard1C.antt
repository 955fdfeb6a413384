-- ===== src/NavTree/Site/Shard1C.antt =====
-- Quarter 3 of an index file: pages and their places in the tree, docs/navtreeindex1.js.
use Prim.Native.String.{String}
use async_fw.Base.{ℕ, List, [], ◌∷◌}

unfoldable pub shard_1_c : List (String × List ℕ)
shard_1_c =
    ("classAsyncFw_1_1File.html#aac258c3ca8290c71ed3f6118caa3652e", 2 ∷ 0 ∷ 0 ∷ 25 ∷ 0 ∷ [])
    ∷ ("classAsyncFw_1_1File.html#aaec950aa1cced82715667e8d0bd9664b", 2 ∷ 0 ∷ 0 ∷ 25 ∷ 16 ∷ [])
    ∷ ("classAsyncFw_1_1File.html#ac704ebdf5f57d7a1c5ddf409d797fb69", 2 ∷ 0 ∷ 0 ∷ 25 ∷ 1 ∷ [])
    ∷ ("classAsyncFw_1_1File.html#ad16ba208a1a58d6c8fda79766fe42aaa", 2 ∷ 0 ∷ 0 ∷ 25 ∷ 15 ∷ [])
    ∷ ("classAsyncFw_1_1File.html#af6794f27c00b09ee3d5ea65c16de7334", 2 ∷ 0 ∷ 0 ∷ 25 ∷ 4 ∷ [])
    ∷ ("classAsyncFw_1_1File.html#af87fa862de707575b8badd044a5af80e", 2 ∷ 0 ∷ 0 ∷ 25 ∷ 6 ∷ [])
    ∷ ("classAsyncFw_1_1FileSystemWatcher.html", 2 ∷ 0 ∷ 0 ∷ 26 ∷ [])
    ∷ (
      "classAsyncFw_1_1FileSystemWatcher.html#a233f7b546957d245122b1527b6605230",
      2 ∷ 0 ∷ 0 ∷ 26 ∷ 4 ∷ [],
    )
    ∷ (
      "classAsyncFw_1_1FileSystemWatcher.html#a437baed4f56fd823fa2ba42dc5be781c",
      2 ∷ 0 ∷ 0 ∷ 26 ∷ 5 ∷ [],
    )
    ∷ (
      "classAsyncFw_1_1FileSystemWatcher.html#a4c808b22785dbc3182a9e7fa600b0919",
      2 ∷ 0 ∷ 0 ∷ 26 ∷ 7 ∷ [],
    )
    ∷ (
      "classAsyncFw_1_1FileSystemWatcher.html#a54e1efecd58f2cbae2932eba716de6a9",
      2 ∷ 0 ∷ 0 ∷ 26 ∷ 2 ∷ [],
    )
    ∷ (
      "classAsyncFw_1_1FileSystemWatcher.html#aa4e37387e27aa1508584b7d0b199d165",
      2 ∷ 0 ∷ 0 ∷ 26 ∷ 3 ∷ [],
    )
    ∷ (
      "classAsyncFw_1_1FileSystemWatcher.html#ab174c18c8399c50a7818c456e2a51551",
      2 ∷ 0 ∷ 0 ∷ 26 ∷ 6 ∷ [],
    )
    ∷ (
      "classAsyncFw_1_1FileSystemWatcher.html#acd061a60fbaea1bb3c7d020e0da99039",
      2 ∷ 0 ∷ 0 ∷ 26 ∷ 0 ∷ [],
    )
    ∷ (
      "classAsyncFw_1_1FileSystemWatcher.html#adfdbffe1e371260804159964e919b78b",
      2 ∷ 0 ∷ 0 ∷ 26 ∷ 1 ∷ [],
    )
    ∷ ("classAsyncFw_1_1FunctionConnectionGuard.html", 2 ∷ 0 ∷ 0 ∷ 10 ∷ [])
    ∷ (
      "classAsyncFw_1_1FunctionConnectionGuard.html#a67c18ab01bdae4da0513e49c8b092597",
      2 ∷ 0 ∷ 0 ∷ 10 ∷ 3 ∷ [],
    )
    ∷ (
      "classAsyncFw_1_1FunctionConnectionGuard.html#a6dcd772a1fc087de360b5d0b4588f83e",
      2 ∷ 0 ∷ 0 ∷ 10 ∷ 4 ∷ [],
    )
    ∷ (
      "classAsyncFw_1_1FunctionConnectionGuard.html#aa887547d9a0d2889e172893ae9421a8d",
      2 ∷ 0 ∷ 0 ∷ 10 ∷ 5 ∷ [],
    )
    ∷ (
      "classAsyncFw_1_1FunctionConnectionGuard.html#ac48d8cd651992f0587eaa4fce726edaf",
      2 ∷ 0 ∷ 0 ∷ 10 ∷ 0 ∷ [],
    )
    ∷ (
      "classAsyncFw_1_1FunctionConnectionGuard.html#acf91863f12533d5e289f9b2c085ea71f",
      2 ∷ 0 ∷ 0 ∷ 10 ∷ 6 ∷ [],
    )
    ∷ (
      "classAsyncFw_1_1FunctionConnectionGuard.html#ad81a16802c1e93b812c25fa1545da727",
      2 ∷ 0 ∷ 0 ∷ 10 ∷ 2 ∷ [],
    )
    ∷ (
      "classAsyncFw_1_1FunctionConnectionGuard.html#adcf72c33d343877b8bfa41036cb2e710",
      2 ∷ 0 ∷ 0 ∷ 10 ∷ 1 ∷ [],
    )
    ∷ ("classAsyncFw_1_1FunctionConnectionGuardList.html", 2 ∷ 0 ∷ 0 ∷ 11 ∷ [])
    ∷ (
      "classAsyncFw_1_1FunctionConnectionGuardList.html#a1868fe28dabfb86ed0d0eb500eeda9f2",
      2 ∷ 0 ∷ 0 ∷ 11 ∷ 0 ∷ [],
    )
    ∷ ("classAsyncFw_1_1FunctionConnector.html", 2 ∷ 0 ∷ 0 ∷ 9 ∷ [])
    ∷ (
      "classAsyncFw_1_1FunctionConnector.html#a9fb8f282c88da90aeaab52a3c174d82b",
      2 ∷ 0 ∷ 0 ∷ 9 ∷ 1 ∷ [],
    )
    ∷ (
      "classAsyncFw_1_1FunctionConnector.html#acc31eb4d17c3cc86ef80c37b169f846d",
      2 ∷ 0 ∷ 0 ∷ 9 ∷ 4 ∷ [],
    )
    ∷ (
      "classAsyncFw_1_1FunctionConnector.html#ae1f65144956b3b1247d58614e4080f63",
      2 ∷ 0 ∷ 0 ∷ 9 ∷ 2 ∷ [],
    )
    ∷ (
      "classAsyncFw_1_1FunctionConnector.html#af022579793868d73d23c179298930724",
      2 ∷ 0 ∷ 0 ∷ 9 ∷ 3 ∷ [],
    )
    ∷ ("classAsyncFw_1_1HttpServer.html", 2 ∷ 0 ∷ 0 ∷ 27 ∷ [])
    ∷ (
      "classAsyncFw_1_1HttpServer.html#a1e3e419d07c51b25f0f4910db1e21b1f",
      2 ∷ 0 ∷ 0 ∷ 27 ∷ 16 ∷ [],
    )
    ∷ (
      "classAsyncFw_1_1HttpServer.html#a313be3a920c19f58526ee184744699c1",
      2 ∷ 0 ∷ 0 ∷ 27 ∷ 17 ∷ [],
    )
    ∷ ("classAsyncFw_1_1HttpServer.html#a414198c976b0e4fa621127ec7146b264", 2 ∷ 0 ∷ 0 ∷ 27 ∷ 6 ∷ [])
    ∷ ("classAsyncFw_1_1HttpServer.html#a522928fa8bf3b13b706ac997d4f100dd", 2 ∷ 0 ∷ 0 ∷ 27 ∷ 3 ∷ [])
    ∷ ("classAsyncFw_1_1HttpServer.html#a5c32aee1be945562ee7c5601ecdc187b", 2 ∷ 0 ∷ 0 ∷ 27 ∷ 4 ∷ [])
    ∷ ("classAsyncFw_1_1HttpServer.html#a64e42967cdef1254142bcba26f246f07", 2 ∷ 0 ∷ 0 ∷ 27 ∷ 5 ∷ [])
    ∷ (
      "classAsyncFw_1_1HttpServer.html#a6806aba6259233c939f9c44f577314ce",
      2 ∷ 0 ∷ 0 ∷ 27 ∷ 18 ∷ [],
    )
    ∷ (
      "classAsyncFw_1_1HttpServer.html#a8f4f0809de66b8631a9134fd823772f3",
      2 ∷ 0 ∷ 0 ∷ 27 ∷ 14 ∷ [],
    )
    ∷ (
      "classAsyncFw_1_1HttpServer.html#aa1ce738d4f20186506c1c4f4290a8a3d",
      2 ∷ 0 ∷ 0 ∷ 27 ∷ 13 ∷ [],
    )
    ∷ (
      "classAsyncFw_1_1HttpServer.html#ab0370ceb3eec1973e97a19d65552845b",
      2 ∷ 0 ∷ 0 ∷ 27 ∷ 19 ∷ [],
    )
    ∷ ("classAsyncFw_1_1HttpServer.html#ab3eeb1643d4482345afcd9f971c020ac", 2 ∷ 0 ∷ 0 ∷ 27 ∷ 8 ∷ [])
    ∷ (
      "classAsyncFw_1_1HttpServer.html#abc4ca40dd30bf85e0328a65360e2038f",
      2 ∷ 0 ∷ 0 ∷ 27 ∷ 20 ∷ [],
    )
    ∷ (
      "classAsyncFw_1_1HttpServer.html#ac1225b4e5fe3b38d5c6ef4c664d0a59b",
      2 ∷ 0 ∷ 0 ∷ 27 ∷ 11 ∷ [],
    )
    ∷ ("classAsyncFw_1_1HttpServer.html#ad0bb08fb4a0ef0fd28961e29a8275bd0", 2 ∷ 0 ∷ 0 ∷ 27 ∷ 7 ∷ [])
    ∷ ("classAsyncFw_1_1HttpServer.html#ad3761260dfd18899afc22c6f4bc0c556", 2 ∷ 0 ∷ 0 ∷ 27 ∷ 9 ∷ [])
    ∷ (
      "classAsyncFw_1_1HttpServer.html#ad7dae50cc3787112980fa7075a60f811",
      2 ∷ 0 ∷ 0 ∷ 27 ∷ 12 ∷ [],
    )
    ∷ (
      "classAsyncFw_1_1HttpServer.html#adbe9b1d1649b32cb126ae37fcd37914f",
      2 ∷ 0 ∷ 0 ∷ 27 ∷ 10 ∷ [],
    )
    ∷ (
      "classAsyncFw_1_1HttpServer.html#ae1ea4f1df23f9d51820cd75d0adb7cac",
      2 ∷ 0 ∷ 0 ∷ 27 ∷ 15 ∷ [],
    )
    ∷ ("classAsyncFw_1_1HttpServer_1_1Request.html", 2 ∷ 0 ∷ 0 ∷ 27 ∷ 2 ∷ [])
    ∷ (
      "classAsyncFw_1_1HttpServer_1_1Request.html#a2af52a5e15a5072bc2ae2561eb631a96",
      2 ∷ 0 ∷ 0 ∷ 27 ∷ 2 ∷ 12 ∷ [],
    )
    ∷ (
      "classAsyncFw_1_1HttpServer_1_1Request.html#a3ca24aa59e822e625aa5c75b85e0d70b",
      2 ∷ 0 ∷ 0 ∷ 27 ∷ 2 ∷ 13 ∷ [],
    )
    ∷ (
      "classAsyncFw_1_1HttpServer_1_1Request.html#a41d6c54e0fbca4f6d6bc65abb6a97827",
      2 ∷ 0 ∷ 0 ∷ 27 ∷ 2 ∷ 0 ∷ [],
    )
    ∷ (
      "classAsyncFw_1_1HttpServer_1_1Request.html#a425bab4718cc7b8958b3db159335f471",
      2 ∷ 0 ∷ 0 ∷ 27 ∷ 2 ∷ 6 ∷ [],
    )
    ∷ (
      "classAsyncFw_1_1HttpServer_1_1Request.html#a4f2b12b853417562150d8af0a5622ef0",
      2 ∷ 0 ∷ 0 ∷ 27 ∷ 2 ∷ 2 ∷ [],
    )
    ∷ (
      "classAsyncFw_1_1HttpServer_1_1Request.html#a52389751ddf9659da47c8a98ec71cf03",
      2 ∷ 0 ∷ 0 ∷ 27 ∷ 2 ∷ 5 ∷ [],
    )
    ∷ (
      "classAsyncFw_1_1HttpServer_1_1Request.html#a6183c383629786f1f45cc58a7cdba48c",
      2 ∷ 0 ∷ 0 ∷ 27 ∷ 2 ∷ 11 ∷ [],
    )
    ∷ (
      "classAsyncFw_1_1HttpServer_1_1Request.html#a80a8403dbddf8e7b6bd5f9f687f5e543",
      2 ∷ 0 ∷ 0 ∷ 27 ∷ 2 ∷ 10 ∷ [],
    )
    ∷ (
      "classAsyncFw_1_1HttpServer_1_1Request.html#a86b3acbb445c3fde881a1fe31441a9c8",
      2 ∷ 0 ∷ 0 ∷ 27 ∷ 2 ∷ 3 ∷ [],
    )
    ∷ (
      "classAsyncFw_1_1HttpServer_1_1Request.html#adb47352909f6cc86597a33950b5f19a6",
      2 ∷ 0 ∷ 0 ∷ 27 ∷ 2 ∷ 1 ∷ [],
    )
    ∷ (
      "classAsyncFw_1_1HttpServer_1_1Request.html#ae6490e010a9dc63eda1c86296bd5e7ed",
      2 ∷ 0 ∷ 0 ∷ 27 ∷ 2 ∷ 9 ∷ [],
    )
    ∷ (
      "classAsyncFw_1_1HttpServer_1_1Request.html#ae6dd1000936e0237652c11a2845b3f7d",
      2 ∷ 0 ∷ 0 ∷ 27 ∷ 2 ∷ 8 ∷ [],
    )
    ∷ (
      "classAsyncFw_1_1HttpServer_1_1Request.html#ae9ef372f9c20c4500ac2c4a44ac3d5ec",
      2 ∷ 0 ∷ 0 ∷ 27 ∷ 2 ∷ 7 ∷ [],
    )
    ∷ []
