-- ===== src/NavTree/Site/Shard1A.antt =====
-- Quarter 1 of an index file: pages and their places in the tree, docs/navtreeindex1.js.
use Prim.Native.String.{String}
use async_fw.Base.{ℕ, List, [], ◌∷◌}

unfoldable pub shard_1_a : List (String × List ℕ)
shard_1_a =
    (
      "classAsyncFw_1_1AddressResolver.html#a9a5b78be91762ae5adc7f19aede8a662",
      2 ∷ 0 ∷ 0 ∷ 15 ∷ 0 ∷ [],
    )
    ∷ (
      "classAsyncFw_1_1AddressResolver.html#adc88c3beebbade60ab2005599de37051",
      2 ∷ 0 ∷ 0 ∷ 15 ∷ 2 ∷ [],
    )
    ∷ ("classAsyncFw_1_1ApplicationNotifier.html", 2 ∷ 0 ∷ 0 ∷ 16 ∷ [])
    ∷ (
      "classAsyncFw_1_1ApplicationNotifier.html#a989eaa483fec75f7d90730d031db0b2a",
      2 ∷ 0 ∷ 0 ∷ 16 ∷ 1 ∷ [],
    )
    ∷ ("classAsyncFw_1_1Cryptor.html", 2 ∷ 0 ∷ 0 ∷ 20 ∷ [])
    ∷ ("classAsyncFw_1_1DataArray.html", 2 ∷ 0 ∷ 0 ∷ 4 ∷ [])
    ∷ ("classAsyncFw_1_1DataArray.html#a3702a8fce4c65f1305c1900290c31dc1", 2 ∷ 0 ∷ 0 ∷ 4 ∷ 5 ∷ [])
    ∷ ("classAsyncFw_1_1DataArray.html#a45a99afaa074d531133fa7c8883aafa8", 2 ∷ 0 ∷ 0 ∷ 4 ∷ 7 ∷ [])
    ∷ ("classAsyncFw_1_1DataArray.html#a5406261e5730adfa64e4d0bbd0083e31", 2 ∷ 0 ∷ 0 ∷ 4 ∷ 4 ∷ [])
    ∷ ("classAsyncFw_1_1DataArray.html#a6b8c7a51c10ab479e7d9616d1bf5f4d3", 2 ∷ 0 ∷ 0 ∷ 4 ∷ 6 ∷ [])
    ∷ ("classAsyncFw_1_1DataArray.html#a80e9cc4ecd584fae8211c51838db9ba1", 2 ∷ 0 ∷ 0 ∷ 4 ∷ 1 ∷ [])
    ∷ ("classAsyncFw_1_1DataArray.html#ab3ca8135417a38c8438a82f226b792ec", 2 ∷ 0 ∷ 0 ∷ 4 ∷ 0 ∷ [])
    ∷ ("classAsyncFw_1_1DataArray.html#acdb72af8f6d536b397658ca5404733e1", 2 ∷ 0 ∷ 0 ∷ 4 ∷ 8 ∷ [])
    ∷ ("classAsyncFw_1_1DataArray.html#ad3f202b6a0817e784de6018dcd2792c7", 2 ∷ 0 ∷ 0 ∷ 4 ∷ 3 ∷ [])
    ∷ ("classAsyncFw_1_1DataArray.html#adc24fdbdf9a018f646ac690cd7e2d52c", 2 ∷ 0 ∷ 0 ∷ 4 ∷ 2 ∷ [])
    ∷ ("classAsyncFw_1_1DataArrayAbstractTcp.html", 2 ∷ 0 ∷ 0 ∷ 21 ∷ [])
    ∷ (
      "classAsyncFw_1_1DataArrayAbstractTcp.html#a0a77d6d5e166af850a5dfb588ccbc8fb",
      2 ∷ 0 ∷ 0 ∷ 21 ∷ 1 ∷ [],
    )
    ∷ (
      "classAsyncFw_1_1DataArrayAbstractTcp.html#a0a77d6d5e166af850a5dfb588ccbc8fba38dabc9c658f0b2bebeecf100ada6b0d",
      2 ∷ 0 ∷ 0 ∷ 21 ∷ 1 ∷ 0 ∷ [],
    )
    ∷ (
      "classAsyncFw_1_1DataArrayAbstractTcp.html#a0a77d6d5e166af850a5dfb588ccbc8fbab13d6924f9f052b5cd28a86872b6bf86",
      2 ∷ 0 ∷ 0 ∷ 21 ∷ 1 ∷ 2 ∷ [],
    )
    ∷ (
      "classAsyncFw_1_1DataArrayAbstractTcp.html#a0a77d6d5e166af850a5dfb588ccbc8fbacdf8f0246690ec54521eb89db2e0676f",
      2 ∷ 0 ∷ 0 ∷ 21 ∷ 1 ∷ 1 ∷ [],
    )
    ∷ (
      "classAsyncFw_1_1DataArrayAbstractTcp.html#a0f47aa063695308b15258c682cf9bc49",
      2 ∷ 0 ∷ 0 ∷ 21 ∷ 5 ∷ [],
    )
    ∷ (
      "classAsyncFw_1_1DataArrayAbstractTcp.html#a1d9557d91e39b12da701e6d371d71031",
      2 ∷ 0 ∷ 0 ∷ 21 ∷ 10 ∷ [],
    )
    ∷ (
      "classAsyncFw_1_1DataArrayAbstractTcp.html#a2af94dfaa43841e7f2aac8cd35eb9f9e",
      2 ∷ 0 ∷ 0 ∷ 21 ∷ 8 ∷ [],
    )
    ∷ (
      "classAsyncFw_1_1DataArrayAbstractTcp.html#a368587c93e41ea8004ee7ffdf98b10ca",
      2 ∷ 0 ∷ 0 ∷ 21 ∷ 9 ∷ [],
    )
    ∷ (
      "classAsyncFw_1_1DataArrayAbstractTcp.html#a43b6f6a4f67c9b2c718f48ea999d5727",
      2 ∷ 0 ∷ 0 ∷ 21 ∷ 20 ∷ [],
    )
    ∷ (
      "classAsyncFw_1_1DataArrayAbstractTcp.html#a45af100bb7d2133f28884c278b8ec298",
      2 ∷ 0 ∷ 0 ∷ 21 ∷ 3 ∷ [],
    )
    ∷ (
      "classAsyncFw_1_1DataArrayAbstractTcp.html#a47d8c0d1876602ace92aad264ad62695",
      2 ∷ 0 ∷ 0 ∷ 21 ∷ 21 ∷ [],
    )
    ∷ (
      "classAsyncFw_1_1DataArrayAbstractTcp.html#a61d8fea700e5b4eda7434b7b3e55aedb",
      2 ∷ 0 ∷ 0 ∷ 21 ∷ 16 ∷ [],
    )
    ∷ (
      "classAsyncFw_1_1DataArrayAbstractTcp.html#a7777e20d24f0dc8136bf916e1ae29440",
      2 ∷ 0 ∷ 0 ∷ 21 ∷ 15 ∷ [],
    )
    ∷ (
      "classAsyncFw_1_1DataArrayAbstractTcp.html#a8bc546c3135e674fcf13e2ee8228fbab",
      2 ∷ 0 ∷ 0 ∷ 21 ∷ 18 ∷ [],
    )
    ∷ (
      "classAsyncFw_1_1DataArrayAbstractTcp.html#a922b46fe2c91ea4eb92f17da008422df",
      2 ∷ 0 ∷ 0 ∷ 21 ∷ 13 ∷ [],
    )
    ∷ (
      "classAsyncFw_1_1DataArrayAbstractTcp.html#aa14fbf40d42b2d193009793538cf4cfc",
      2 ∷ 0 ∷ 0 ∷ 21 ∷ 11 ∷ [],
    )
    ∷ (
      "classAsyncFw_1_1DataArrayAbstractTcp.html#aa63ef6a933e4d036529e7b32cb06a0d3",
      2 ∷ 0 ∷ 0 ∷ 21 ∷ 7 ∷ [],
    )
    ∷ (
      "classAsyncFw_1_1DataArrayAbstractTcp.html#aa9d59be7845d746853397e1905880434",
      2 ∷ 0 ∷ 0 ∷ 21 ∷ 4 ∷ [],
    )
    ∷ (
      "classAsyncFw_1_1DataArrayAbstractTcp.html#ab09633096b1271c46c3778cdd56d8367",
      2 ∷ 0 ∷ 0 ∷ 21 ∷ 22 ∷ [],
    )
    ∷ (
      "classAsyncFw_1_1DataArrayAbstractTcp.html#ab4e8f2fc581da74be9e9f2a0845749d3",
      2 ∷ 0 ∷ 0 ∷ 21 ∷ 14 ∷ [],
    )
    ∷ (
      "classAsyncFw_1_1DataArrayAbstractTcp.html#ab52e14dcbac67ced6f4f009cb2d44396",
      2 ∷ 0 ∷ 0 ∷ 21 ∷ 17 ∷ [],
    )
    ∷ (
      "classAsyncFw_1_1DataArrayAbstractTcp.html#ad1cfe0836b7e9e184d3be17942b0dc4e",
      2 ∷ 0 ∷ 0 ∷ 21 ∷ 19 ∷ [],
    )
    ∷ (
      "classAsyncFw_1_1DataArrayAbstractTcp.html#adbdfede75d80d1c6c76800415d51b35c",
      2 ∷ 0 ∷ 0 ∷ 21 ∷ 2 ∷ [],
    )
    ∷ (
      "classAsyncFw_1_1DataArrayAbstractTcp.html#ae58df4b570a50455f5f295513d7bdb52",
      2 ∷ 0 ∷ 0 ∷ 21 ∷ 12 ∷ [],
    )
    ∷ (
      "classAsyncFw_1_1DataArrayAbstractTcp.html#af825c0bcfa4f37f618c19563246a2559",
      2 ∷ 0 ∷ 0 ∷ 21 ∷ 6 ∷ [],
    )
    ∷ ("classAsyncFw_1_1DataArrayAbstractTcp_1_1Thread.html", 2 ∷ 0 ∷ 0 ∷ 21 ∷ 0 ∷ [])
    ∷ (
      "classAsyncFw_1_1DataArrayAbstractTcp_1_1Thread.html#a09bd1e72ed2f3b30a12fede45bb98d86",
      2 ∷ 0 ∷ 0 ∷ 21 ∷ 0 ∷ 0 ∷ [],
    )
    ∷ (
      "classAsyncFw_1_1DataArrayAbstractTcp_1_1Thread.html#a658eb13fe8039a9a74f16e4dab9a1b20",
      2 ∷ 0 ∷ 0 ∷ 21 ∷ 0 ∷ 3 ∷ [],
    )
    ∷ (
      "classAsyncFw_1_1DataArrayAbstractTcp_1_1Thread.html#ab6df6de1f9828a772e5968477ce5dffa",
      2 ∷ 0 ∷ 0 ∷ 21 ∷ 0 ∷ 2 ∷ [],
    )
    ∷ (
      "classAsyncFw_1_1DataArrayAbstractTcp_1_1Thread.html#aca7c5fcf08cc257de061af63342cd466",
      2 ∷ 0 ∷ 0 ∷ 21 ∷ 0 ∷ 1 ∷ [],
    )
    ∷ ("classAsyncFw_1_1DataArrayList.html", 2 ∷ 0 ∷ 0 ∷ 6 ∷ [])
    ∷ (
      "classAsyncFw_1_1DataArrayList.html#aae4334ca3819a5f8b983dd90ecaf9404",
      2 ∷ 0 ∷ 0 ∷ 6 ∷ 0 ∷ [],
    )
    ∷ ("classAsyncFw_1_1DataArraySocket.html", 2 ∷ 0 ∷ 0 ∷ 22 ∷ [])
    ∷ (
      "classAsyncFw_1_1DataArraySocket.html#a02696f976d1d5724c250b68d4fc5a0c5",
      2 ∷ 0 ∷ 0 ∷ 22 ∷ 8 ∷ [],
    )
    ∷ (
      "classAsyncFw_1_1DataArraySocket.html#a02dbcce97207d018e0ab0ab3ce78b7be",
      2 ∷ 0 ∷ 0 ∷ 22 ∷ 19 ∷ [],
    )
    ∷ (
      "classAsyncFw_1_1DataArraySocket.html#a1a1f3404abcb93af27de1d7bc0a958b1",
      2 ∷ 0 ∷ 0 ∷ 22 ∷ 18 ∷ [],
    )
    ∷ (
      "classAsyncFw_1_1DataArraySocket.html#a2d5f4259d7ac3b4689f6cdb236c72a59",
      2 ∷ 0 ∷ 0 ∷ 22 ∷ 2 ∷ [],
    )
    ∷ (
      "classAsyncFw_1_1DataArraySocket.html#a3778eda861efa9039c358a72c28b12d6",
      2 ∷ 0 ∷ 0 ∷ 22 ∷ 6 ∷ [],
    )
    ∷ (
      "classAsyncFw_1_1DataArraySocket.html#a464539f5d9b05703b35c9b817659a42f",
      2 ∷ 0 ∷ 0 ∷ 22 ∷ 10 ∷ [],
    )
    ∷ (
      "classAsyncFw_1_1DataArraySocket.html#a60d24e73561b9ffc720deefca7a6f720",
      2 ∷ 0 ∷ 0 ∷ 22 ∷ 12 ∷ [],
    )
    ∷ (
      "classAsyncFw_1_1DataArraySocket.html#a6536b3ffa53f1461b8db3c0de6c4c5ba",
      2 ∷ 0 ∷ 0 ∷ 22 ∷ 7 ∷ [],
    )
    ∷ (
      "classAsyncFw_1_1DataArraySocket.html#a69849ab5c5e5070d4352656897733618",
      2 ∷ 0 ∷ 0 ∷ 22 ∷ 5 ∷ [],
    )
    ∷ (
      "classAsyncFw_1_1DataArraySocket.html#a72836b04feb74cca75bee3369d1970d7",
      2 ∷ 0 ∷ 0 ∷ 22 ∷ 3 ∷ [],
    )
    ∷ (
      "classAsyncFw_1_1DataArraySocket.html#a9942cbf100e7898ba95c8fb92e059ae8",
      2 ∷ 0 ∷ 0 ∷ 22 ∷ 15 ∷ [],
    )
    ∷ (
      "classAsyncFw_1_1DataArraySocket.html#aa54790ba28da3f83e8252fe5abaf6676",
      2 ∷ 0 ∷ 0 ∷ 22 ∷ 1 ∷ [],
    )
    ∷ (
      "classAsyncFw_1_1DataArraySocket.html#ab0c23db25054ae85a92b6fb57f7da125",
      2 ∷ 0 ∷ 0 ∷ 22 ∷ 20 ∷ [],
    )
    ∷ (
      "classAsyncFw_1_1DataArraySocket.html#ac6538838fecb36204afd45f47b53a657",
      2 ∷ 0 ∷ 0 ∷ 22 ∷ 11 ∷ [],
    )
    ∷ []
