-- ===== src/NavTree/Site/Shard0C.antt =====
-- Quarter 3 of an index file: pages and their places in the tree, docs/navtreeindex0.js.
use Prim.Native.String.{String}
use async_fw.Base.{ℕ, List, [], ◌∷◌}

unfoldable pub shard_0_c : List (String × List ℕ)
shard_0_c =
    ("classAsyncFw_1_1AbstractLog.html#a9d4074dfb0cd3d2f54bc1301f6dcdfb8", 2 ∷ 0 ∷ 0 ∷ 32 ∷ 11 ∷ [])
    ∷ (
      "classAsyncFw_1_1AbstractLog.html#ab0cce5578235f60f5687f5ac352c0c5c",
      2 ∷ 0 ∷ 0 ∷ 32 ∷ 8 ∷ [],
    )
    ∷ (
      "classAsyncFw_1_1AbstractLog.html#aca18be3a6c0f1c681fffc475f2eba5ac",
      2 ∷ 0 ∷ 0 ∷ 32 ∷ 7 ∷ [],
    )
    ∷ (
      "classAsyncFw_1_1AbstractLog.html#ad3d69f8e4e65e11f777961ff199cc305",
      2 ∷ 0 ∷ 0 ∷ 32 ∷ 3 ∷ [],
    )
    ∷ (
      "classAsyncFw_1_1AbstractLog.html#af5285b3d69b6af192fb2656d44b2e122",
      2 ∷ 0 ∷ 0 ∷ 32 ∷ 9 ∷ [],
    )
    ∷ ("classAsyncFw_1_1AbstractSocket.html", 2 ∷ 0 ∷ 0 ∷ 0 ∷ [])
    ∷ (
      "classAsyncFw_1_1AbstractSocket.html#a0ffc2cb5dd293722a9336a528357f9c5",
      2 ∷ 0 ∷ 0 ∷ 0 ∷ 6 ∷ [],
    )
    ∷ (
      "classAsyncFw_1_1AbstractSocket.html#a1380ccdb23066b7084eca638b4232761",
      2 ∷ 0 ∷ 0 ∷ 0 ∷ 38 ∷ [],
    )
    ∷ (
      "classAsyncFw_1_1AbstractSocket.html#a1896d02632e8ad50648e81b19f06743c",
      2 ∷ 0 ∷ 0 ∷ 0 ∷ 15 ∷ [],
    )
    ∷ (
      "classAsyncFw_1_1AbstractSocket.html#a2b3066513b7cf718a97fe6c9f3cc11e6",
      2 ∷ 0 ∷ 0 ∷ 0 ∷ 3 ∷ [],
    )
    ∷ (
      "classAsyncFw_1_1AbstractSocket.html#a374dd4ce66bfcc8a6dcf40b4ba552828",
      2 ∷ 0 ∷ 0 ∷ 0 ∷ 14 ∷ [],
    )
    ∷ (
      "classAsyncFw_1_1AbstractSocket.html#a3dd69e137ca3cf50f90607c17bbdc312",
      2 ∷ 0 ∷ 0 ∷ 0 ∷ 21 ∷ [],
    )
    ∷ (
      "classAsyncFw_1_1AbstractSocket.html#a3f4a74f0ab83d096bd37118bb28d8654",
      2 ∷ 0 ∷ 0 ∷ 0 ∷ 13 ∷ [],
    )
    ∷ (
      "classAsyncFw_1_1AbstractSocket.html#a426c3b10de20344079571d6708f096ca",
      2 ∷ 0 ∷ 0 ∷ 0 ∷ 12 ∷ [],
    )
    ∷ (
      "classAsyncFw_1_1AbstractSocket.html#a4659df5988d2af771d4feee9edec55d8",
      2 ∷ 0 ∷ 0 ∷ 0 ∷ 32 ∷ [],
    )
    ∷ (
      "classAsyncFw_1_1AbstractSocket.html#a49a607ef9c268469124164ab86971787",
      2 ∷ 0 ∷ 0 ∷ 0 ∷ 37 ∷ [],
    )
    ∷ (
      "classAsyncFw_1_1AbstractSocket.html#a4ad7bcd91ec7a91270d83bf583d62be1",
      2 ∷ 0 ∷ 0 ∷ 0 ∷ 17 ∷ [],
    )
    ∷ (
      "classAsyncFw_1_1AbstractSocket.html#a5cc266f87cd4666f10b85a2c52b762bb",
      2 ∷ 0 ∷ 0 ∷ 0 ∷ 34 ∷ [],
    )
    ∷ (
      "classAsyncFw_1_1AbstractSocket.html#a5db12267a6d2241e81f570463f2d7ef5",
      2 ∷ 0 ∷ 0 ∷ 0 ∷ 26 ∷ [],
    )
    ∷ (
      "classAsyncFw_1_1AbstractSocket.html#a609ec54ec8aed39769d60319c4c15833",
      2 ∷ 0 ∷ 0 ∷ 0 ∷ 27 ∷ [],
    )
    ∷ (
      "classAsyncFw_1_1AbstractSocket.html#a64ec81f99806967d9244337b88ae03ba",
      2 ∷ 0 ∷ 0 ∷ 0 ∷ 30 ∷ [],
    )
    ∷ (
      "classAsyncFw_1_1AbstractSocket.html#a6b5bfbc488d553dca8a2d01b6b415482",
      2 ∷ 0 ∷ 0 ∷ 0 ∷ 16 ∷ [],
    )
    ∷ (
      "classAsyncFw_1_1AbstractSocket.html#a6fc3dae51b6b38d67f1c3861dcbb23bd",
      2 ∷ 0 ∷ 0 ∷ 0 ∷ 0 ∷ [],
    )
    ∷ (
      "classAsyncFw_1_1AbstractSocket.html#a6fc3dae51b6b38d67f1c3861dcbb23bda1bc468bc996ac9ce17018c3320ac5516",
      2 ∷ 0 ∷ 0 ∷ 0 ∷ 0 ∷ 6 ∷ [],
    )
    ∷ (
      "classAsyncFw_1_1AbstractSocket.html#a6fc3dae51b6b38d67f1c3861dcbb23bda516ec5c0c571fe5c0d60881eddc2c22e",
      2 ∷ 0 ∷ 0 ∷ 0 ∷ 0 ∷ 5 ∷ [],
    )
    ∷ (
      "classAsyncFw_1_1AbstractSocket.html#a6fc3dae51b6b38d67f1c3861dcbb23bda5b13d3f73cf426c72bbd8598ede9442d",
      2 ∷ 0 ∷ 0 ∷ 0 ∷ 0 ∷ 1 ∷ [],
    )
    ∷ (
      "classAsyncFw_1_1AbstractSocket.html#a6fc3dae51b6b38d67f1c3861dcbb23bda65e37b7a6b547c0da9a63972db5dfd49",
      2 ∷ 0 ∷ 0 ∷ 0 ∷ 0 ∷ 0 ∷ [],
    )
    ∷ (
      "classAsyncFw_1_1AbstractSocket.html#a6fc3dae51b6b38d67f1c3861dcbb23bdabba7ae24638871f8e94de4b4af31c37f",
      2 ∷ 0 ∷ 0 ∷ 0 ∷ 0 ∷ 2 ∷ [],
    )
    ∷ (
      "classAsyncFw_1_1AbstractSocket.html#a6fc3dae51b6b38d67f1c3861dcbb23bdabc8b14ad3e5c48f1e2be50e1f70fc237",
      2 ∷ 0 ∷ 0 ∷ 0 ∷ 0 ∷ 4 ∷ [],
    )
    ∷ (
      "classAsyncFw_1_1AbstractSocket.html#a6fc3dae51b6b38d67f1c3861dcbb23bdaccd0feb91061e2ddcac7f6b90bf9efa5",
      2 ∷ 0 ∷ 0 ∷ 0 ∷ 0 ∷ 3 ∷ [],
    )
    ∷ (
      "classAsyncFw_1_1AbstractSocket.html#a73a200f0008dbf9f820bdb2b8a0054cf",
      2 ∷ 0 ∷ 0 ∷ 0 ∷ 10 ∷ [],
    )
    ∷ (
      "classAsyncFw_1_1AbstractSocket.html#a75415b9f0ecc82b703e49ad8abf1f3a8",
      2 ∷ 0 ∷ 0 ∷ 0 ∷ 33 ∷ [],
    )
    ∷ (
      "classAsyncFw_1_1AbstractSocket.html#a77c0a9ea7c5061c406673bbe8b18d60d",
      2 ∷ 0 ∷ 0 ∷ 0 ∷ 9 ∷ [],
    )
    ∷ (
      "classAsyncFw_1_1AbstractSocket.html#a7dec1397dbd20b891e20aeb14a253779",
      2 ∷ 0 ∷ 0 ∷ 0 ∷ 19 ∷ [],
    )
    ∷ (
      "classAsyncFw_1_1AbstractSocket.html#a8720ba9755d46ce21efa6056e7cf5034",
      2 ∷ 0 ∷ 0 ∷ 0 ∷ 2 ∷ [],
    )
    ∷ (
      "classAsyncFw_1_1AbstractSocket.html#a8720ba9755d46ce21efa6056e7cf5034a279f21d56f24884fee5325f2ecd8326e",
      2 ∷ 0 ∷ 0 ∷ 0 ∷ 2 ∷ 1 ∷ [],
    )
    ∷ (
      "classAsyncFw_1_1AbstractSocket.html#a8720ba9755d46ce21efa6056e7cf5034ae5cae7a164a407735575fa1f4760c7de",
      2 ∷ 0 ∷ 0 ∷ 0 ∷ 2 ∷ 0 ∷ [],
    )
    ∷ (
      "classAsyncFw_1_1AbstractSocket.html#a940a10b5f063e970cb7e46a61cab2415",
      2 ∷ 0 ∷ 0 ∷ 0 ∷ 1 ∷ [],
    )
    ∷ (
      "classAsyncFw_1_1AbstractSocket.html#a940a10b5f063e970cb7e46a61cab2415a18bbf4b02f65dbe6f74715ae7b4682a6",
      2 ∷ 0 ∷ 0 ∷ 0 ∷ 1 ∷ 1 ∷ [],
    )
    ∷ (
      "classAsyncFw_1_1AbstractSocket.html#a940a10b5f063e970cb7e46a61cab2415a39ae7fa79f41ed464e63aee7b5918080",
      2 ∷ 0 ∷ 0 ∷ 0 ∷ 1 ∷ 2 ∷ [],
    )
    ∷ (
      "classAsyncFw_1_1AbstractSocket.html#a940a10b5f063e970cb7e46a61cab2415a6084632d3ad9ef3f0bce55a0751c817b",
      2 ∷ 0 ∷ 0 ∷ 0 ∷ 1 ∷ 4 ∷ [],
    )
    ∷ (
      "classAsyncFw_1_1AbstractSocket.html#a940a10b5f063e970cb7e46a61cab2415a650fdfa57cdb708fed90e3a8c3401d8f",
      2 ∷ 0 ∷ 0 ∷ 0 ∷ 1 ∷ 5 ∷ [],
    )
    ∷ (
      "classAsyncFw_1_1AbstractSocket.html#a940a10b5f063e970cb7e46a61cab2415a906f37e70a41b6af3e5be5ca47662a45",
      2 ∷ 0 ∷ 0 ∷ 0 ∷ 1 ∷ 0 ∷ [],
    )
    ∷ (
      "classAsyncFw_1_1AbstractSocket.html#a940a10b5f063e970cb7e46a61cab2415ac89172e9f1ba9d2ab4230e50bc844739",
      2 ∷ 0 ∷ 0 ∷ 0 ∷ 1 ∷ 3 ∷ [],
    )
    ∷ (
      "classAsyncFw_1_1AbstractSocket.html#a96c331ff22db7a34923c34f575075e6a",
      2 ∷ 0 ∷ 0 ∷ 0 ∷ 8 ∷ [],
    )
    ∷ (
      "classAsyncFw_1_1AbstractSocket.html#aa0f81593deeb67fe6a3031e9d57738d4",
      2 ∷ 0 ∷ 0 ∷ 0 ∷ 11 ∷ [],
    )
    ∷ (
      "classAsyncFw_1_1AbstractSocket.html#aa29d033332c09e341d159b2189c774e9",
      2 ∷ 0 ∷ 0 ∷ 0 ∷ 22 ∷ [],
    )
    ∷ (
      "classAsyncFw_1_1AbstractSocket.html#aa4b74ce0259d4424ef41b2d10290351c",
      2 ∷ 0 ∷ 0 ∷ 0 ∷ 39 ∷ [],
    )
    ∷ (
      "classAsyncFw_1_1AbstractSocket.html#aa66ea88eb21787155ef487b89da94f96",
      2 ∷ 0 ∷ 0 ∷ 0 ∷ 4 ∷ [],
    )
    ∷ (
      "classAsyncFw_1_1AbstractSocket.html#aa91adbe0ea3297083d63e26531daa266",
      2 ∷ 0 ∷ 0 ∷ 0 ∷ 24 ∷ [],
    )
    ∷ (
      "classAsyncFw_1_1AbstractSocket.html#aac7ad6c4f9815d9b8b0817d38864d06d",
      2 ∷ 0 ∷ 0 ∷ 0 ∷ 25 ∷ [],
    )
    ∷ (
      "classAsyncFw_1_1AbstractSocket.html#ab05320fcb1c111e06a56587b4abbb639",
      2 ∷ 0 ∷ 0 ∷ 0 ∷ 23 ∷ [],
    )
    ∷ (
      "classAsyncFw_1_1AbstractSocket.html#ab10c09c1cadc705e99866b527fc6cc52",
      2 ∷ 0 ∷ 0 ∷ 0 ∷ 18 ∷ [],
    )
    ∷ (
      "classAsyncFw_1_1AbstractSocket.html#ac1b9b68ae7fe6c9312d9d713a7b444a9",
      2 ∷ 0 ∷ 0 ∷ 0 ∷ 20 ∷ [],
    )
    ∷ (
      "classAsyncFw_1_1AbstractSocket.html#ac4b8765d203b4d4bc77d9d6e00d5dd85",
      2 ∷ 0 ∷ 0 ∷ 0 ∷ 7 ∷ [],
    )
    ∷ (
      "classAsyncFw_1_1AbstractSocket.html#acb6850773f2a617d9beb1bac6f0bf2f0",
      2 ∷ 0 ∷ 0 ∷ 0 ∷ 31 ∷ [],
    )
    ∷ (
      "classAsyncFw_1_1AbstractSocket.html#ad5fb89c73a0f4bcca190d3a4cab15a97",
      2 ∷ 0 ∷ 0 ∷ 0 ∷ 5 ∷ [],
    )
    ∷ (
      "classAsyncFw_1_1AbstractSocket.html#ad6d428c75ae5b7321a3838b22abcdf6b",
      2 ∷ 0 ∷ 0 ∷ 0 ∷ 29 ∷ [],
    )
    ∷ (
      "classAsyncFw_1_1AbstractSocket.html#adf2d96f44c3abf205e637f3809bc614d",
      2 ∷ 0 ∷ 0 ∷ 0 ∷ 35 ∷ [],
    )
    ∷ (
      "classAsyncFw_1_1AbstractSocket.html#aee9d948ab5f79cb9c0c45da1709c1159",
      2 ∷ 0 ∷ 0 ∷ 0 ∷ 36 ∷ [],
    )
    ∷ (
      "classAsyncFw_1_1AbstractSocket.html#af8141e7714603e6c83c0640a2d74ec90",
      2 ∷ 0 ∷ 0 ∷ 0 ∷ 28 ∷ [],
    )
    ∷ ("classAsyncFw_1_1AbstractTask.html", 2 ∷ 0 ∷ 0 ∷ 41 ∷ [])
    ∷ (
      "classAsyncFw_1_1AbstractTask.html#a0f1750e42ee13dd969f72fb99ef310b4",
      2 ∷ 0 ∷ 0 ∷ 41 ∷ 0 ∷ [],
    )
    ∷ []
