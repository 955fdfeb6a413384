-- ===== src/NavTree/Site/Shard2A.antt =====
-- Quarter 1 of an index file: pages and their places in the tree, docs/navtreeindex2.js.
use Prim.Native.String.{String}
use async_fw.Base.{ℕ, List, [], ◌∷◌}

unfoldable pub shard_2_a : List (String × List ℕ)
shard_2_a =
    (
      "classAsyncFw_1_1LogStream.html#afa2f6c5311ced6b973d39d6e5ced5731a66e8e44e1adfebd567c25c6611a5e418",
      2 ∷ 0 ∷ 0 ∷ 12 ∷ 1 ∷ 0 ∷ [],
    )
    ∷ (
      "classAsyncFw_1_1LogStream.html#afa2f6c5311ced6b973d39d6e5ced5731a735a344d42befe22f3f60ed4f1125351",
      2 ∷ 0 ∷ 0 ∷ 12 ∷ 1 ∷ 2 ∷ [],
    )
    ∷ (
      "classAsyncFw_1_1LogStream.html#afa2f6c5311ced6b973d39d6e5ced5731a8e7cdb29641eddbcac3012fe6eb3cd3d",
      2 ∷ 0 ∷ 0 ∷ 12 ∷ 1 ∷ 1 ∷ [],
    )
    ∷ (
      "classAsyncFw_1_1LogStream.html#afa2f6c5311ced6b973d39d6e5ced5731a96aad685f21a4a927c6c3a74274efd5a",
      2 ∷ 0 ∷ 0 ∷ 12 ∷ 1 ∷ 3 ∷ [],
    )
    ∷ (
      "classAsyncFw_1_1LogStream.html#afa2f6c5311ced6b973d39d6e5ced5731ab9e4aeca51d007c66abb1ad6b93c3c37",
      2 ∷ 0 ∷ 0 ∷ 12 ∷ 1 ∷ 7 ∷ [],
    )
    ∷ (
      "classAsyncFw_1_1LogStream.html#afa2f6c5311ced6b973d39d6e5ced5731ae60e1a6347736018009842563cd57231",
      2 ∷ 0 ∷ 0 ∷ 12 ∷ 1 ∷ 4 ∷ [],
    )
    ∷ ("classAsyncFw_1_1MainThread.html", 2 ∷ 0 ∷ 0 ∷ 34 ∷ [])
    ∷ ("classAsyncFw_1_1MulticastDns.html", 2 ∷ 0 ∷ 0 ∷ 35 ∷ [])
    ∷ (
      "classAsyncFw_1_1MulticastDns.html#a00da8b82983f3da4d37809761b04df10",
      2 ∷ 0 ∷ 0 ∷ 35 ∷ 15 ∷ [],
    )
    ∷ (
      "classAsyncFw_1_1MulticastDns.html#a010507720899efd7b653d3e33bc64f0a",
      2 ∷ 0 ∷ 0 ∷ 35 ∷ 6 ∷ [],
    )
    ∷ (
      "classAsyncFw_1_1MulticastDns.html#a03b1bd87ba47f61a0443e42cec2a78cb",
      2 ∷ 0 ∷ 0 ∷ 35 ∷ 11 ∷ [],
    )
    ∷ (
      "classAsyncFw_1_1MulticastDns.html#a091b0f3d62c8f78f33a396f4cbf140b0",
      2 ∷ 0 ∷ 0 ∷ 35 ∷ 13 ∷ [],
    )
    ∷ (
      "classAsyncFw_1_1MulticastDns.html#a1aaa9222fa44159da442b8ce403152ab",
      2 ∷ 0 ∷ 0 ∷ 35 ∷ 10 ∷ [],
    )
    ∷ (
      "classAsyncFw_1_1MulticastDns.html#a1aae9d9612ba077da938bb80a8c3330d",
      2 ∷ 0 ∷ 0 ∷ 35 ∷ 3 ∷ [],
    )
    ∷ (
      "classAsyncFw_1_1MulticastDns.html#a23e336e5c39f79f847b12014558e8dda",
      2 ∷ 0 ∷ 0 ∷ 35 ∷ 5 ∷ [],
    )
    ∷ (
      "classAsyncFw_1_1MulticastDns.html#a4db656bae572e9b28e1ebef4b6f05465",
      2 ∷ 0 ∷ 0 ∷ 35 ∷ 1 ∷ [],
    )
    ∷ (
      "classAsyncFw_1_1MulticastDns.html#a4db656bae572e9b28e1ebef4b6f05465a1951dca893badeb1f1992fa9805ebb91",
      2 ∷ 0 ∷ 0 ∷ 35 ∷ 1 ∷ 1 ∷ [],
    )
    ∷ (
      "classAsyncFw_1_1MulticastDns.html#a4db656bae572e9b28e1ebef4b6f05465a846f46532ca6212d12ee0d1024f6de98",
      2 ∷ 0 ∷ 0 ∷ 35 ∷ 1 ∷ 0 ∷ [],
    )
    ∷ (
      "classAsyncFw_1_1MulticastDns.html#a6604b92ff217e3502a3eca746efe9403",
      2 ∷ 0 ∷ 0 ∷ 35 ∷ 4 ∷ [],
    )
    ∷ (
      "classAsyncFw_1_1MulticastDns.html#a973574ac5d99e8b3ef2455ded3e90407",
      2 ∷ 0 ∷ 0 ∷ 35 ∷ 14 ∷ [],
    )
    ∷ (
      "classAsyncFw_1_1MulticastDns.html#a9740e59f3a6a0f48dba3381c0324eee1",
      2 ∷ 0 ∷ 0 ∷ 35 ∷ 7 ∷ [],
    )
    ∷ (
      "classAsyncFw_1_1MulticastDns.html#a97cbf66dbddc356f45aad429e118d287",
      2 ∷ 0 ∷ 0 ∷ 35 ∷ 16 ∷ [],
    )
    ∷ (
      "classAsyncFw_1_1MulticastDns.html#a99f55a2e095da0b02e7e29b1cc0f47eb",
      2 ∷ 0 ∷ 0 ∷ 35 ∷ 9 ∷ [],
    )
    ∷ (
      "classAsyncFw_1_1MulticastDns.html#a9afe98db8817d4d9c6b6eb1ba07f5e60",
      2 ∷ 0 ∷ 0 ∷ 35 ∷ 12 ∷ [],
    )
    ∷ (
      "classAsyncFw_1_1MulticastDns.html#ab9bfb41e98cd4ecf1cc63f8acd023afd",
      2 ∷ 0 ∷ 0 ∷ 35 ∷ 2 ∷ [],
    )
    ∷ (
      "classAsyncFw_1_1MulticastDns.html#acfe6df81240db7979782c2df5a117c91",
      2 ∷ 0 ∷ 0 ∷ 35 ∷ 8 ∷ [],
    )
    ∷ ("classAsyncFw_1_1PollNotifier.html", 2 ∷ 0 ∷ 0 ∷ 36 ∷ [])
    ∷ (
      "classAsyncFw_1_1PollNotifier.html#a383eab2a439eb7cf82f1ddc38a6204cb",
      2 ∷ 0 ∷ 0 ∷ 36 ∷ 1 ∷ [],
    )
    ∷ (
      "classAsyncFw_1_1PollNotifier.html#a52d96002ff262ab846331324c64882e0",
      2 ∷ 0 ∷ 0 ∷ 36 ∷ 5 ∷ [],
    )
    ∷ (
      "classAsyncFw_1_1PollNotifier.html#a5a1c30a1fcfc343457e07db934165893",
      2 ∷ 0 ∷ 0 ∷ 36 ∷ 2 ∷ [],
    )
    ∷ (
      "classAsyncFw_1_1PollNotifier.html#a5b2ff26b63b3d2f46b04892c6899217c",
      2 ∷ 0 ∷ 0 ∷ 36 ∷ 4 ∷ [],
    )
    ∷ (
      "classAsyncFw_1_1PollNotifier.html#a63d989535fa3af6dcb2e8656999f8315",
      2 ∷ 0 ∷ 0 ∷ 36 ∷ 3 ∷ [],
    )
    ∷ (
      "classAsyncFw_1_1PollNotifier.html#a8bcd61fb697ec4d0d53b942feb5b8026",
      2 ∷ 0 ∷ 0 ∷ 36 ∷ 6 ∷ [],
    )
    ∷ (
      "classAsyncFw_1_1PollNotifier.html#abe469fd8ab6f5a38c562aa2885075ec6",
      2 ∷ 0 ∷ 0 ∷ 36 ∷ 0 ∷ [],
    )
    ∷ ("classAsyncFw_1_1Rrd.html", 2 ∷ 0 ∷ 0 ∷ 37 ∷ [])
    ∷ ("classAsyncFw_1_1Rrd.html#a0e1fdab32966afe235c8a3cbb9c3c528", 2 ∷ 0 ∷ 0 ∷ 37 ∷ 15 ∷ [])
    ∷ ("classAsyncFw_1_1Rrd.html#a113f3548987e7b830295e91bc74e2b89", 2 ∷ 0 ∷ 0 ∷ 37 ∷ 14 ∷ [])
    ∷ ("classAsyncFw_1_1Rrd.html#a171ca62295eb74da3e222bb14e14dea8", 2 ∷ 0 ∷ 0 ∷ 37 ∷ 6 ∷ [])
    ∷ ("classAsyncFw_1_1Rrd.html#a2da84a54164e2273cb4183d9f2a72dec", 2 ∷ 0 ∷ 0 ∷ 37 ∷ 8 ∷ [])
    ∷ ("classAsyncFw_1_1Rrd.html#a2fd20dd3470a11ef179577c565c333f1", 2 ∷ 0 ∷ 0 ∷ 37 ∷ 0 ∷ [])
    ∷ ("classAsyncFw_1_1Rrd.html#a330145de892c6f5e916d7dda15aeedfc", 2 ∷ 0 ∷ 0 ∷ 37 ∷ 7 ∷ [])
    ∷ ("classAsyncFw_1_1Rrd.html#a4aa5bc0099565061c0fc1c72cf99d8c6", 2 ∷ 0 ∷ 0 ∷ 37 ∷ 10 ∷ [])
    ∷ ("classAsyncFw_1_1Rrd.html#a4c33c8721d57d0b3666549a52bf2a696", 2 ∷ 0 ∷ 0 ∷ 37 ∷ 11 ∷ [])
    ∷ ("classAsyncFw_1_1Rrd.html#a56d6e047fa884528c91286f552f8a239", 2 ∷ 0 ∷ 0 ∷ 37 ∷ 4 ∷ [])
    ∷ ("classAsyncFw_1_1Rrd.html#a6d232ea0ea88fcfcd7ad84e9129f84e3", 2 ∷ 0 ∷ 0 ∷ 37 ∷ 13 ∷ [])
    ∷ ("classAsyncFw_1_1Rrd.html#a74af3bc94a8b411adf93b0abe8745441", 2 ∷ 0 ∷ 0 ∷ 37 ∷ 9 ∷ [])
    ∷ ("classAsyncFw_1_1Rrd.html#a7f2590f1a87af46970c6e54eefb4c6f6", 2 ∷ 0 ∷ 0 ∷ 37 ∷ 12 ∷ [])
    ∷ ("classAsyncFw_1_1Rrd.html#a7ff19310fbae9fbf6b6a2b26bceb7cec", 2 ∷ 0 ∷ 0 ∷ 37 ∷ 16 ∷ [])
    ∷ ("classAsyncFw_1_1Rrd.html#a98c7829cc6177c80245cf95095deb3ba", 2 ∷ 0 ∷ 0 ∷ 37 ∷ 1 ∷ [])
    ∷ ("classAsyncFw_1_1Rrd.html#aa54ae298c96e9efe88b644931b12f734", 2 ∷ 0 ∷ 0 ∷ 37 ∷ 3 ∷ [])
    ∷ ("classAsyncFw_1_1Rrd.html#aaea6a63444ab427f801be34f26d930d5", 2 ∷ 0 ∷ 0 ∷ 37 ∷ 2 ∷ [])
    ∷ ("classAsyncFw_1_1Rrd.html#ac1e21d6150414b6d7632aff22f8f13c7", 2 ∷ 0 ∷ 0 ∷ 37 ∷ 5 ∷ [])
    ∷ ("classAsyncFw_1_1RrdClient.html", 2 ∷ 0 ∷ 0 ∷ 38 ∷ [])
    ∷ ("classAsyncFw_1_1RrdClient.html#a4d6d253c85c993ed6906efe3ced940a7", 2 ∷ 0 ∷ 0 ∷ 38 ∷ 5 ∷ [])
    ∷ ("classAsyncFw_1_1RrdClient.html#a7437419c70ea6d55a6a701211b4582a2", 2 ∷ 0 ∷ 0 ∷ 38 ∷ 4 ∷ [])
    ∷ ("classAsyncFw_1_1RrdClient.html#a99c8606f7788c0ab1d468b61b4de9adf", 2 ∷ 0 ∷ 0 ∷ 38 ∷ 0 ∷ [])
    ∷ ("classAsyncFw_1_1RrdClient.html#a9db5f1a5ddaa3c083851d557764937c0", 2 ∷ 0 ∷ 0 ∷ 38 ∷ 1 ∷ [])
    ∷ ("classAsyncFw_1_1RrdClient.html#ab598862c2fcddef6f476db9d1ed9faf6", 2 ∷ 0 ∷ 0 ∷ 38 ∷ 2 ∷ [])
    ∷ ("classAsyncFw_1_1RrdClient.html#ad8724d7772f037925d9694c1afc20d8e", 2 ∷ 0 ∷ 0 ∷ 38 ∷ 3 ∷ [])
    ∷ ("classAsyncFw_1_1RrdClient.html#af2fd0de2fbfbca76e20f85d2d572f83b", 2 ∷ 0 ∷ 0 ∷ 38 ∷ 6 ∷ [])
    ∷ []
