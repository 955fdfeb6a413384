-- ===== src/NavTree/Site/Shard0D.antt =====
-- Quarter 4 of an index file: pages and their places in the tree, docs/navtreeindex0.js.
use Prim.Native.String.{String}
use async_fw.Base.{ℕ, List, [], ◌∷◌}

unfoldable pub shard_0_d : List (String × List ℕ)
shard_0_d =
    ("classAsyncFw_1_1AbstractTask.html#a711751422b8bf225f696f4a5c1cb3fcf", 2 ∷ 0 ∷ 0 ∷ 41 ∷ 1 ∷ [])
    ∷ (
      "classAsyncFw_1_1AbstractTask.html#ab5c6c7ec53a111afcbd485f8c13b81f0",
      2 ∷ 0 ∷ 0 ∷ 41 ∷ 2 ∷ [],
    )
    ∷ ("classAsyncFw_1_1AbstractThread.html", 2 ∷ 0 ∷ 0 ∷ 1 ∷ [])
    ∷ (
      "classAsyncFw_1_1AbstractThread.html#a0cd916251e061aaf3d456575ef052edd",
      2 ∷ 0 ∷ 0 ∷ 1 ∷ 27 ∷ [],
    )
    ∷ (
      "classAsyncFw_1_1AbstractThread.html#a16affc1626e26d18cc2d9eab21315591",
      2 ∷ 0 ∷ 0 ∷ 1 ∷ 20 ∷ [],
    )
    ∷ (
      "classAsyncFw_1_1AbstractThread.html#a1abe0f5c637dcc6af5aff00c5291bd4f",
      2 ∷ 0 ∷ 0 ∷ 1 ∷ 29 ∷ [],
    )
    ∷ (
      "classAsyncFw_1_1AbstractThread.html#a1fa8bc43151797cbcfb2013ee1fce2ce",
      2 ∷ 0 ∷ 0 ∷ 1 ∷ 13 ∷ [],
    )
    ∷ (
      "classAsyncFw_1_1AbstractThread.html#a41d1cf92e033bcc11e2394cb949e031a",
      2 ∷ 0 ∷ 0 ∷ 1 ∷ 26 ∷ [],
    )
    ∷ (
      "classAsyncFw_1_1AbstractThread.html#a474577d15fa4b52abee863b44a0b7f89",
      2 ∷ 0 ∷ 0 ∷ 1 ∷ 25 ∷ [],
    )
    ∷ (
      "classAsyncFw_1_1AbstractThread.html#a499a70b1d68a82fcded917a331f4cdef",
      2 ∷ 0 ∷ 0 ∷ 1 ∷ 18 ∷ [],
    )
    ∷ (
      "classAsyncFw_1_1AbstractThread.html#a4d12fe08b7d84311eaa56a9704b7c2ba",
      2 ∷ 0 ∷ 0 ∷ 1 ∷ 24 ∷ [],
    )
    ∷ (
      "classAsyncFw_1_1AbstractThread.html#a4e367b49b300c1b93d2275b5840bb20b",
      2 ∷ 0 ∷ 0 ∷ 1 ∷ 14 ∷ [],
    )
    ∷ (
      "classAsyncFw_1_1AbstractThread.html#a4e97803ef650d36ba80ef1471c4b643c",
      2 ∷ 0 ∷ 0 ∷ 1 ∷ 1 ∷ [],
    )
    ∷ (
      "classAsyncFw_1_1AbstractThread.html#a5d7785eb8b21e956a6b7ff880d3ae4c3",
      2 ∷ 0 ∷ 0 ∷ 1 ∷ 22 ∷ [],
    )
    ∷ (
      "classAsyncFw_1_1AbstractThread.html#a654efa5f41b38ff679e48211e8904a59",
      2 ∷ 0 ∷ 0 ∷ 1 ∷ 4 ∷ [],
    )
    ∷ (
      "classAsyncFw_1_1AbstractThread.html#a6e17293ccd9683f5bd8ca9a3dcd52e7d",
      2 ∷ 0 ∷ 0 ∷ 1 ∷ 28 ∷ [],
    )
    ∷ (
      "classAsyncFw_1_1AbstractThread.html#a786474d037b50053f1a97af7b67e6069",
      2 ∷ 0 ∷ 0 ∷ 1 ∷ 6 ∷ [],
    )
    ∷ (
      "classAsyncFw_1_1AbstractThread.html#a7e5b6e93c0e2afca24874900b8aec919",
      2 ∷ 0 ∷ 0 ∷ 1 ∷ 7 ∷ [],
    )
    ∷ (
      "classAsyncFw_1_1AbstractThread.html#a8c9202c90ac101522f26c4260cb01b59",
      2 ∷ 0 ∷ 0 ∷ 1 ∷ 5 ∷ [],
    )
    ∷ (
      "classAsyncFw_1_1AbstractThread.html#a9a4001da757d31945c4e6be4e20c31ed",
      2 ∷ 0 ∷ 0 ∷ 1 ∷ 16 ∷ [],
    )
    ∷ (
      "classAsyncFw_1_1AbstractThread.html#a9b9db94ad8c90eafe1ef34a076af8498",
      2 ∷ 0 ∷ 0 ∷ 1 ∷ 9 ∷ [],
    )
    ∷ (
      "classAsyncFw_1_1AbstractThread.html#aa317731738402e37a8a05d5a5ec9d7c4",
      2 ∷ 0 ∷ 0 ∷ 1 ∷ 11 ∷ [],
    )
    ∷ (
      "classAsyncFw_1_1AbstractThread.html#ab614c8e9a266d924e86c3c49c1a6ff36",
      2 ∷ 0 ∷ 0 ∷ 1 ∷ 21 ∷ [],
    )
    ∷ (
      "classAsyncFw_1_1AbstractThread.html#abe96e6b2a1de041f0d25390a6b77e50a",
      2 ∷ 0 ∷ 0 ∷ 1 ∷ 12 ∷ [],
    )
    ∷ (
      "classAsyncFw_1_1AbstractThread.html#aca9b6529df5d0faa3bd33174ba643aa1",
      2 ∷ 0 ∷ 0 ∷ 1 ∷ 8 ∷ [],
    )
    ∷ (
      "classAsyncFw_1_1AbstractThread.html#ad3dad9f7e0852a4c24c2bae48c701802",
      2 ∷ 0 ∷ 0 ∷ 1 ∷ 3 ∷ [],
    )
    ∷ (
      "classAsyncFw_1_1AbstractThread.html#ad43b7b79e541bd1d6cce20f0231cc64d",
      2 ∷ 0 ∷ 0 ∷ 1 ∷ 10 ∷ [],
    )
    ∷ (
      "classAsyncFw_1_1AbstractThread.html#ae8fc0b3f68faed69e7f0b4e940ef12c0",
      2 ∷ 0 ∷ 0 ∷ 1 ∷ 15 ∷ [],
    )
    ∷ (
      "classAsyncFw_1_1AbstractThread.html#af295f768757d3c7d6cf32e5248cbc2e0",
      2 ∷ 0 ∷ 0 ∷ 1 ∷ 17 ∷ [],
    )
    ∷ (
      "classAsyncFw_1_1AbstractThread.html#af2a69c1875d42b8daa41a82f000e4c2a",
      2 ∷ 0 ∷ 0 ∷ 1 ∷ 2 ∷ [],
    )
    ∷ (
      "classAsyncFw_1_1AbstractThread.html#afdaccb5da7d4bee5e9ff687f761bd21f",
      2 ∷ 0 ∷ 0 ∷ 1 ∷ 19 ∷ [],
    )
    ∷ (
      "classAsyncFw_1_1AbstractThread.html#afef57401f138e8de37eb8d817772d9ff",
      2 ∷ 0 ∷ 0 ∷ 1 ∷ 23 ∷ [],
    )
    ∷ ("classAsyncFw_1_1AbstractThreadPool.html", 2 ∷ 0 ∷ 0 ∷ 43 ∷ [])
    ∷ (
      "classAsyncFw_1_1AbstractThreadPool.html#a15294f7912a633e62e26fe0f7848eb68",
      2 ∷ 0 ∷ 0 ∷ 43 ∷ 2 ∷ [],
    )
    ∷ (
      "classAsyncFw_1_1AbstractThreadPool.html#a1b2d31f7db01a7cacec702eb7323e620",
      2 ∷ 0 ∷ 0 ∷ 43 ∷ 3 ∷ [],
    )
    ∷ (
      "classAsyncFw_1_1AbstractThreadPool.html#a8dd6e5afe3b1c8f0fac9176568909c54",
      2 ∷ 0 ∷ 0 ∷ 43 ∷ 4 ∷ [],
    )
    ∷ (
      "classAsyncFw_1_1AbstractThreadPool.html#ac312e723c2e0fa3e4cc18e518853bdf2",
      2 ∷ 0 ∷ 0 ∷ 43 ∷ 1 ∷ [],
    )
    ∷ ("classAsyncFw_1_1AbstractThreadPool_1_1Thread.html", 2 ∷ 0 ∷ 0 ∷ 43 ∷ 0 ∷ [])
    ∷ (
      "classAsyncFw_1_1AbstractThreadPool_1_1Thread.html#a3f4c0689143ffada4c4569f43f93c5a9",
      2 ∷ 0 ∷ 0 ∷ 43 ∷ 0 ∷ 2 ∷ [],
    )
    ∷ (
      "classAsyncFw_1_1AbstractThreadPool_1_1Thread.html#a787b048ddebfd8b5d5d6c3988d0d90d3",
      2 ∷ 0 ∷ 0 ∷ 43 ∷ 0 ∷ 0 ∷ [],
    )
    ∷ (
      "classAsyncFw_1_1AbstractThreadPool_1_1Thread.html#aa4a8873e426f02286f1082de4083cb01",
      2 ∷ 0 ∷ 0 ∷ 43 ∷ 0 ∷ 1 ∷ [],
    )
    ∷ ("classAsyncFw_1_1AbstractThread_1_1Waiter.html", 2 ∷ 0 ∷ 0 ∷ 1 ∷ 0 ∷ [])
    ∷ (
      "classAsyncFw_1_1AbstractThread_1_1Waiter.html#aaebe8ac927c9bd707aee2dd85b60eb22",
      2 ∷ 0 ∷ 0 ∷ 1 ∷ 0 ∷ 2 ∷ [],
    )
    ∷ (
      "classAsyncFw_1_1AbstractThread_1_1Waiter.html#ad2a62fc1276d8be1986a7e77f6dfb437",
      2 ∷ 0 ∷ 0 ∷ 1 ∷ 0 ∷ 1 ∷ [],
    )
    ∷ (
      "classAsyncFw_1_1AbstractThread_1_1Waiter.html#af91079f02392dbcccd1ef5f99acb53f7",
      2 ∷ 0 ∷ 0 ∷ 1 ∷ 0 ∷ 0 ∷ [],
    )
    ∷ ("classAsyncFw_1_1AbstractTlsSocket.html", 2 ∷ 0 ∷ 0 ∷ 2 ∷ [])
    ∷ (
      "classAsyncFw_1_1AbstractTlsSocket.html#a292ef97002bfefde576959435ed2ee25",
      2 ∷ 0 ∷ 0 ∷ 2 ∷ 11 ∷ [],
    )
    ∷ (
      "classAsyncFw_1_1AbstractTlsSocket.html#a2d9c3d5d540b82fb516f5c56def48a02",
      2 ∷ 0 ∷ 0 ∷ 2 ∷ 3 ∷ [],
    )
    ∷ (
      "classAsyncFw_1_1AbstractTlsSocket.html#a46dbd8e4895445214a4f46ee46433d6c",
      2 ∷ 0 ∷ 0 ∷ 2 ∷ 5 ∷ [],
    )
    ∷ (
      "classAsyncFw_1_1AbstractTlsSocket.html#a57ac6daff9926cf631abcd1e19073cc8",
      2 ∷ 0 ∷ 0 ∷ 2 ∷ 9 ∷ [],
    )
    ∷ (
      "classAsyncFw_1_1AbstractTlsSocket.html#a7244e3b461e0012dab1d9c3b1c0db78e",
      2 ∷ 0 ∷ 0 ∷ 2 ∷ 10 ∷ [],
    )
    ∷ (
      "classAsyncFw_1_1AbstractTlsSocket.html#a75c2ff2d05c2d228ee92a33d755ca42f",
      2 ∷ 0 ∷ 0 ∷ 2 ∷ 1 ∷ [],
    )
    ∷ (
      "classAsyncFw_1_1AbstractTlsSocket.html#a7800254e24419820e105e863c0266ac4",
      2 ∷ 0 ∷ 0 ∷ 2 ∷ 0 ∷ [],
    )
    ∷ (
      "classAsyncFw_1_1AbstractTlsSocket.html#a84a79c1f921e96efd6b4f47cd7cd91e0",
      2 ∷ 0 ∷ 0 ∷ 2 ∷ 12 ∷ [],
    )
    ∷ (
      "classAsyncFw_1_1AbstractTlsSocket.html#a89721fd68ed3de138aa6167dd98ec5fa",
      2 ∷ 0 ∷ 0 ∷ 2 ∷ 2 ∷ [],
    )
    ∷ (
      "classAsyncFw_1_1AbstractTlsSocket.html#a9043562cf451851003009adedb277d7b",
      2 ∷ 0 ∷ 0 ∷ 2 ∷ 7 ∷ [],
    )
    ∷ (
      "classAsyncFw_1_1AbstractTlsSocket.html#ad26bb910e65bb758bfed6448e1af7186",
      2 ∷ 0 ∷ 0 ∷ 2 ∷ 8 ∷ [],
    )
    ∷ (
      "classAsyncFw_1_1AbstractTlsSocket.html#af2e1d08071a0c8472fa1e8fd98f8f48d",
      2 ∷ 0 ∷ 0 ∷ 2 ∷ 6 ∷ [],
    )
    ∷ (
      "classAsyncFw_1_1AbstractTlsSocket.html#af52f94f709ab74eace61da79cbd8af7d",
      2 ∷ 0 ∷ 0 ∷ 2 ∷ 4 ∷ [],
    )
    ∷ ("classAsyncFw_1_1AddressResolver.html", 2 ∷ 0 ∷ 0 ∷ 15 ∷ [])
    ∷ (
      "classAsyncFw_1_1AddressResolver.html#a59f08f5d62fba62538b9094548fa1fd0",
      2 ∷ 0 ∷ 0 ∷ 15 ∷ 1 ∷ [],
    )
    ∷ []
