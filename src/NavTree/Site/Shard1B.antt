-- ===== src/NavTree/Site/Shard1B.antt =====
-- Quarter 2 of an index file: pages and their places in the tree, docs/navtreeindex1.js.
use Prim.Native.String.{String}
use async_fw.Base.{ℕ, List, [], ◌∷◌}

unfoldable pub shard_1_b : List (String × List ℕ)
shard_1_b =
    (
      "classAsyncFw_1_1DataArraySocket.html#ac7366a53ca9c5c43bc3c6bb88b539d53",
      2 ∷ 0 ∷ 0 ∷ 22 ∷ 0 ∷ [],
    )
    ∷ (
      "classAsyncFw_1_1DataArraySocket.html#acd4f5a119c8c2919bb1d3471f79c19bd",
      2 ∷ 0 ∷ 0 ∷ 22 ∷ 4 ∷ [],
    )
    ∷ (
      "classAsyncFw_1_1DataArraySocket.html#ace65cd7f4fb86d24ef6588508738404c",
      2 ∷ 0 ∷ 0 ∷ 22 ∷ 9 ∷ [],
    )
    ∷ (
      "classAsyncFw_1_1DataArraySocket.html#ae20bbfbd7138f5a6e0003ed6b117a7f7",
      2 ∷ 0 ∷ 0 ∷ 22 ∷ 13 ∷ [],
    )
    ∷ (
      "classAsyncFw_1_1DataArraySocket.html#aed242e797aea527f8b86c4bc866ab454",
      2 ∷ 0 ∷ 0 ∷ 22 ∷ 14 ∷ [],
    )
    ∷ (
      "classAsyncFw_1_1DataArraySocket.html#af6faaf80328db0a1644cd6b89ffae7eb",
      2 ∷ 0 ∷ 0 ∷ 22 ∷ 16 ∷ [],
    )
    ∷ (
      "classAsyncFw_1_1DataArraySocket.html#afae26d6d937eddd4b7c64f48933c0984",
      2 ∷ 0 ∷ 0 ∷ 22 ∷ 17 ∷ [],
    )
    ∷ ("classAsyncFw_1_1DataArrayTcpClient.html", 2 ∷ 0 ∷ 0 ∷ 23 ∷ [])
    ∷ (
      "classAsyncFw_1_1DataArrayTcpClient.html#a1023f2107bd696aab3c7e1d3b661fc91",
      2 ∷ 0 ∷ 0 ∷ 23 ∷ 11 ∷ [],
    )
    ∷ (
      "classAsyncFw_1_1DataArrayTcpClient.html#a380c907a396d306611fe7dc21f35f74f",
      2 ∷ 0 ∷ 0 ∷ 23 ∷ 9 ∷ [],
    )
    ∷ (
      "classAsyncFw_1_1DataArrayTcpClient.html#a39e5b88e09a327955fb47b64dc60f568",
      2 ∷ 0 ∷ 0 ∷ 23 ∷ 5 ∷ [],
    )
    ∷ (
      "classAsyncFw_1_1DataArrayTcpClient.html#a4ae40b5452d25984450f8e4b22d051f9",
      2 ∷ 0 ∷ 0 ∷ 23 ∷ 13 ∷ [],
    )
    ∷ (
      "classAsyncFw_1_1DataArrayTcpClient.html#a568d86a72be68556d29cb76855dd8029",
      2 ∷ 0 ∷ 0 ∷ 23 ∷ 10 ∷ [],
    )
    ∷ (
      "classAsyncFw_1_1DataArrayTcpClient.html#a89ec7e88a650fa0d5eeafcf72afa56f9",
      2 ∷ 0 ∷ 0 ∷ 23 ∷ 12 ∷ [],
    )
    ∷ (
      "classAsyncFw_1_1DataArrayTcpClient.html#aa005c8c643454bd1ae4ae0c7fe4c1068",
      2 ∷ 0 ∷ 0 ∷ 23 ∷ 7 ∷ [],
    )
    ∷ (
      "classAsyncFw_1_1DataArrayTcpClient.html#ab1d57ed772640642f422515435d62197",
      2 ∷ 0 ∷ 0 ∷ 23 ∷ 4 ∷ [],
    )
    ∷ (
      "classAsyncFw_1_1DataArrayTcpClient.html#ac15595fca2d28f650f05557cb85c15ef",
      2 ∷ 0 ∷ 0 ∷ 23 ∷ 2 ∷ [],
    )
    ∷ (
      "classAsyncFw_1_1DataArrayTcpClient.html#ac9d422208fb30613d8eb7781f9241f7b",
      2 ∷ 0 ∷ 0 ∷ 23 ∷ 1 ∷ [],
    )
    ∷ (
      "classAsyncFw_1_1DataArrayTcpClient.html#ac9d422208fb30613d8eb7781f9241f7ba2ce8e07b6e0c64ad132c4252ab4d5d28",
      2 ∷ 0 ∷ 0 ∷ 23 ∷ 1 ∷ 4 ∷ [],
    )
    ∷ (
      "classAsyncFw_1_1DataArrayTcpClient.html#ac9d422208fb30613d8eb7781f9241f7ba312ca3075c322f911a81152fda9b91e4",
      2 ∷ 0 ∷ 0 ∷ 23 ∷ 1 ∷ 0 ∷ [],
    )
    ∷ (
      "classAsyncFw_1_1DataArrayTcpClient.html#ac9d422208fb30613d8eb7781f9241f7ba9f0e5d9d512fd37f516031df3e7e2560",
      2 ∷ 0 ∷ 0 ∷ 23 ∷ 1 ∷ 2 ∷ [],
    )
    ∷ (
      "classAsyncFw_1_1DataArrayTcpClient.html#ac9d422208fb30613d8eb7781f9241f7bad6409e4e73f5751be1f7765c9ca7b84e",
      2 ∷ 0 ∷ 0 ∷ 23 ∷ 1 ∷ 3 ∷ [],
    )
    ∷ (
      "classAsyncFw_1_1DataArrayTcpClient.html#ac9d422208fb30613d8eb7781f9241f7baf4fd635887a0ada6dde08967253fa2d1",
      2 ∷ 0 ∷ 0 ∷ 23 ∷ 1 ∷ 1 ∷ [],
    )
    ∷ (
      "classAsyncFw_1_1DataArrayTcpClient.html#acc665d05a338bf954fcdda64fe6ee8c7",
      2 ∷ 0 ∷ 0 ∷ 23 ∷ 3 ∷ [],
    )
    ∷ (
      "classAsyncFw_1_1DataArrayTcpClient.html#af5306849ea109fb9e5bfba5360cfe57a",
      2 ∷ 0 ∷ 0 ∷ 23 ∷ 6 ∷ [],
    )
    ∷ (
      "classAsyncFw_1_1DataArrayTcpClient.html#afb856fb1b426dd583fc46062f347b3f9",
      2 ∷ 0 ∷ 0 ∷ 23 ∷ 8 ∷ [],
    )
    ∷ ("classAsyncFw_1_1DataArrayTcpClient_1_1Thread.html", 2 ∷ 0 ∷ 0 ∷ 23 ∷ 0 ∷ [])
    ∷ (
      "classAsyncFw_1_1DataArrayTcpClient_1_1Thread.html#aa186a054294b6f836da1f31e0f2f02ad",
      2 ∷ 0 ∷ 0 ∷ 23 ∷ 0 ∷ 0 ∷ [],
    )
    ∷ ("classAsyncFw_1_1DataArrayTcpServer.html", 2 ∷ 0 ∷ 0 ∷ 24 ∷ [])
    ∷ (
      "classAsyncFw_1_1DataArrayTcpServer.html#a236741fbc0785fa65edfa6016011a5ab",
      2 ∷ 0 ∷ 0 ∷ 24 ∷ 1 ∷ [],
    )
    ∷ (
      "classAsyncFw_1_1DataArrayTcpServer.html#a2af94dfaa43841e7f2aac8cd35eb9f9e",
      2 ∷ 0 ∷ 0 ∷ 24 ∷ 6 ∷ [],
    )
    ∷ (
      "classAsyncFw_1_1DataArrayTcpServer.html#a2fbfcf86915fd5703ce0dce804f7475f",
      2 ∷ 0 ∷ 0 ∷ 24 ∷ 2 ∷ [],
    )
    ∷ (
      "classAsyncFw_1_1DataArrayTcpServer.html#a322e0207f5e60a9d6567e1098f5dbece",
      2 ∷ 0 ∷ 0 ∷ 24 ∷ 3 ∷ [],
    )
    ∷ (
      "classAsyncFw_1_1DataArrayTcpServer.html#a368587c93e41ea8004ee7ffdf98b10ca",
      2 ∷ 0 ∷ 0 ∷ 24 ∷ 7 ∷ [],
    )
    ∷ (
      "classAsyncFw_1_1DataArrayTcpServer.html#aaf79299ffea6dd3d665d64f5ab70f068",
      2 ∷ 0 ∷ 0 ∷ 24 ∷ 4 ∷ [],
    )
    ∷ (
      "classAsyncFw_1_1DataArrayTcpServer.html#ae0a1c3637fc972782b2716a2183773b6",
      2 ∷ 0 ∷ 0 ∷ 24 ∷ 0 ∷ [],
    )
    ∷ (
      "classAsyncFw_1_1DataArrayTcpServer.html#aee0352f08202c4ee379b244f69e2a2e8",
      2 ∷ 0 ∷ 0 ∷ 24 ∷ 5 ∷ [],
    )
    ∷ ("classAsyncFw_1_1DataArrayView.html", 2 ∷ 0 ∷ 0 ∷ 5 ∷ [])
    ∷ (
      "classAsyncFw_1_1DataArrayView.html#a0614fa75fc23b3a9839c45733957d6e0",
      2 ∷ 0 ∷ 0 ∷ 5 ∷ 1 ∷ [],
    )
    ∷ (
      "classAsyncFw_1_1DataArrayView.html#a5037f9b6a55397a1a999e22198bb54ea",
      2 ∷ 0 ∷ 0 ∷ 5 ∷ 3 ∷ [],
    )
    ∷ (
      "classAsyncFw_1_1DataArrayView.html#a5a35bb0c7c6c44781b883a789520128c",
      2 ∷ 0 ∷ 0 ∷ 5 ∷ 2 ∷ [],
    )
    ∷ (
      "classAsyncFw_1_1DataArrayView.html#ad04f46e3d78a878d98603a6820e6039d",
      2 ∷ 0 ∷ 0 ∷ 5 ∷ 0 ∷ [],
    )
    ∷ (
      "classAsyncFw_1_1DataArrayView.html#af0409dfe7cdeea6df5d33174abb0e464",
      2 ∷ 0 ∷ 0 ∷ 5 ∷ 4 ∷ [],
    )
    ∷ ("classAsyncFw_1_1DataStream.html", 2 ∷ 0 ∷ 0 ∷ 7 ∷ [])
    ∷ ("classAsyncFw_1_1DataStream.html#a5483f91b758e0383fec1fd3c540425ef", 2 ∷ 0 ∷ 0 ∷ 7 ∷ 1 ∷ [])
    ∷ ("classAsyncFw_1_1DataStream.html#a58e67062bf6cd3f77a8203758b01eaf8", 2 ∷ 0 ∷ 0 ∷ 7 ∷ 4 ∷ [])
    ∷ ("classAsyncFw_1_1DataStream.html#aadb8f27fe18a349a25b2cd656d686f92", 2 ∷ 0 ∷ 0 ∷ 7 ∷ 0 ∷ [])
    ∷ ("classAsyncFw_1_1DataStream.html#ac2fcf2fccb05fc820d943721eb827f20", 2 ∷ 0 ∷ 0 ∷ 7 ∷ 2 ∷ [])
    ∷ ("classAsyncFw_1_1DataStream.html#ae64c4b08a3259146d4476c0385352479", 2 ∷ 0 ∷ 0 ∷ 7 ∷ 3 ∷ [])
    ∷ ("classAsyncFw_1_1File.html", 2 ∷ 0 ∷ 0 ∷ 25 ∷ [])
    ∷ ("classAsyncFw_1_1File.html#a0cd5ad18548cd40cd34f2146a63bb147", 2 ∷ 0 ∷ 0 ∷ 25 ∷ 11 ∷ [])
    ∷ ("classAsyncFw_1_1File.html#a212a2b7db1a9cffd87c78b0285671bea", 2 ∷ 0 ∷ 0 ∷ 25 ∷ 2 ∷ [])
    ∷ ("classAsyncFw_1_1File.html#a22c7e349dbcc3242374c6c685948d201", 2 ∷ 0 ∷ 0 ∷ 25 ∷ 7 ∷ [])
    ∷ ("classAsyncFw_1_1File.html#a2965e419210567f0a2f81f30b0862ee6", 2 ∷ 0 ∷ 0 ∷ 25 ∷ 13 ∷ [])
    ∷ ("classAsyncFw_1_1File.html#a39260c14055a9f001825ec3c454ecf0f", 2 ∷ 0 ∷ 0 ∷ 25 ∷ 12 ∷ [])
    ∷ ("classAsyncFw_1_1File.html#a4260fca380a387a8347b83bb4bee91b5", 2 ∷ 0 ∷ 0 ∷ 25 ∷ 9 ∷ [])
    ∷ ("classAsyncFw_1_1File.html#a51e2de0b42a61ced3dff12675e78490e", 2 ∷ 0 ∷ 0 ∷ 25 ∷ 8 ∷ [])
    ∷ ("classAsyncFw_1_1File.html#a5d34b6e9d6a397e82a6f7bec62ea2f4d", 2 ∷ 0 ∷ 0 ∷ 25 ∷ 17 ∷ [])
    ∷ ("classAsyncFw_1_1File.html#a7e940f76fe48e35d1273f06e376541eb", 2 ∷ 0 ∷ 0 ∷ 25 ∷ 10 ∷ [])
    ∷ ("classAsyncFw_1_1File.html#a83cbce54d6c3b8c2f417b51f6b3f488c", 2 ∷ 0 ∷ 0 ∷ 25 ∷ 5 ∷ [])
    ∷ ("classAsyncFw_1_1File.html#a861146c8fe75ac121d094faa88dca18f", 2 ∷ 0 ∷ 0 ∷ 25 ∷ 14 ∷ [])
    ∷ ("classAsyncFw_1_1File.html#a8f534ddab32c516f07c26b766b99fabc", 2 ∷ 0 ∷ 0 ∷ 25 ∷ 3 ∷ [])
    ∷ ("classAsyncFw_1_1File.html#aa6ae13a7d7a317da534536f29d4bd803", 2 ∷ 0 ∷ 0 ∷ 25 ∷ 18 ∷ [])
    ∷ []
