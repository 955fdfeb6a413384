-- ===== src/NavTree/Site/Shard1D.antt =====
-- Quarter 4 of an index file: pages and their places in the tree, docs/navtreeindex1.js.
use Prim.Native.String.{String}
use async_fw.Base.{ℕ, List, [], ◌∷◌}

unfoldable pub shard_1_d : List (String × List ℕ)
shard_1_d =
    (
      "classAsyncFw_1_1HttpServer_1_1Request.html#afa488a05d879b6cbdca0853401352d19",
      2 ∷ 0 ∷ 0 ∷ 27 ∷ 2 ∷ 4 ∷ [],
    )
    ∷ ("classAsyncFw_1_1HttpServer_1_1Response.html", 2 ∷ 0 ∷ 0 ∷ 27 ∷ 1 ∷ [])
    ∷ (
      "classAsyncFw_1_1HttpServer_1_1Response.html#a1846436563e8710e368eefb4d6f9f726",
      2 ∷ 0 ∷ 0 ∷ 27 ∷ 1 ∷ 12 ∷ [],
    )
    ∷ (
      "classAsyncFw_1_1HttpServer_1_1Response.html#a1e25071dfc003a6530edf35e0249e4b9",
      2 ∷ 0 ∷ 0 ∷ 27 ∷ 1 ∷ 6 ∷ [],
    )
    ∷ (
      "classAsyncFw_1_1HttpServer_1_1Response.html#a23e3482fe2491dfa068dfda528087700",
      2 ∷ 0 ∷ 0 ∷ 27 ∷ 1 ∷ 9 ∷ [],
    )
    ∷ (
      "classAsyncFw_1_1HttpServer_1_1Response.html#a3bd5303884754553c8dcf33c3b98da3c",
      2 ∷ 0 ∷ 0 ∷ 27 ∷ 1 ∷ 8 ∷ [],
    )
    ∷ (
      "classAsyncFw_1_1HttpServer_1_1Response.html#a49cefe2de7569c227d2282f9a832beab",
      2 ∷ 0 ∷ 0 ∷ 27 ∷ 1 ∷ 3 ∷ [],
    )
    ∷ (
      "classAsyncFw_1_1HttpServer_1_1Response.html#a52925841696f5351ff43b46530c18390",
      2 ∷ 0 ∷ 0 ∷ 27 ∷ 1 ∷ 5 ∷ [],
    )
    ∷ (
      "classAsyncFw_1_1HttpServer_1_1Response.html#a5dd46db3eac7d1a07948d072e71c11f2",
      2 ∷ 0 ∷ 0 ∷ 27 ∷ 1 ∷ 4 ∷ [],
    )
    ∷ (
      "classAsyncFw_1_1HttpServer_1_1Response.html#a6a20c4899ac30402f9135573b44975f8",
      2 ∷ 0 ∷ 0 ∷ 27 ∷ 1 ∷ 1 ∷ [],
    )
    ∷ (
      "classAsyncFw_1_1HttpServer_1_1Response.html#a763ad72776c70e9e6eb1aed082adbbed",
      2 ∷ 0 ∷ 0 ∷ 27 ∷ 1 ∷ 11 ∷ [],
    )
    ∷ (
      "classAsyncFw_1_1HttpServer_1_1Response.html#a773fc6cae4a86db031eba409412ca40f",
      2 ∷ 0 ∷ 0 ∷ 27 ∷ 1 ∷ 2 ∷ [],
    )
    ∷ (
      "classAsyncFw_1_1HttpServer_1_1Response.html#ab9c9286252d93d6034b23f391c8fe8fb",
      2 ∷ 0 ∷ 0 ∷ 27 ∷ 1 ∷ 7 ∷ [],
    )
    ∷ (
      "classAsyncFw_1_1HttpServer_1_1Response.html#ad33ca9292a0e375b907458eed9e70a67",
      2 ∷ 0 ∷ 0 ∷ 27 ∷ 1 ∷ 13 ∷ [],
    )
    ∷ (
      "classAsyncFw_1_1HttpServer_1_1Response.html#ade630649387805688da86e8d0adaeb67",
      2 ∷ 0 ∷ 0 ∷ 27 ∷ 1 ∷ 0 ∷ [],
    )
    ∷ (
      "classAsyncFw_1_1HttpServer_1_1Response.html#afa24643371f00fe11d7df0f9caae4134",
      2 ∷ 0 ∷ 0 ∷ 27 ∷ 1 ∷ 10 ∷ [],
    )
    ∷ ("classAsyncFw_1_1HttpServer_1_1TcpSocket.html", 2 ∷ 0 ∷ 0 ∷ 27 ∷ 0 ∷ [])
    ∷ (
      "classAsyncFw_1_1HttpServer_1_1TcpSocket.html#a41557b69e30e25b97cbdda210afb7657",
      2 ∷ 0 ∷ 0 ∷ 27 ∷ 0 ∷ 0 ∷ [],
    )
    ∷ (
      "classAsyncFw_1_1HttpServer_1_1TcpSocket.html#abb44001861ba7b24633b54ae90c2896c",
      2 ∷ 0 ∷ 0 ∷ 27 ∷ 0 ∷ 1 ∷ [],
    )
    ∷ ("classAsyncFw_1_1HttpSocket.html", 2 ∷ 0 ∷ 0 ∷ 28 ∷ [])
    ∷ ("classAsyncFw_1_1HttpSocket.html#a33dadd18584b3b2b76a02dffa0a831fb", 2 ∷ 0 ∷ 0 ∷ 28 ∷ 4 ∷ [])
    ∷ ("classAsyncFw_1_1HttpSocket.html#a7163448458d68f433dbdb214a6175be3", 2 ∷ 0 ∷ 0 ∷ 28 ∷ 2 ∷ [])
    ∷ ("classAsyncFw_1_1HttpSocket.html#a8268467d3581a4d393e9ccd288de32ff", 2 ∷ 0 ∷ 0 ∷ 28 ∷ 6 ∷ [])
    ∷ ("classAsyncFw_1_1HttpSocket.html#a96932e5f6b5f84c4f204b0e6e4ef8472", 2 ∷ 0 ∷ 0 ∷ 28 ∷ 5 ∷ [])
    ∷ ("classAsyncFw_1_1HttpSocket.html#ab3ee95c329a5f5c7ea659fe7809cc37e", 2 ∷ 0 ∷ 0 ∷ 28 ∷ 0 ∷ [])
    ∷ ("classAsyncFw_1_1HttpSocket.html#ac276bcd3a5e86289eb37ea7fd062559b", 2 ∷ 0 ∷ 0 ∷ 28 ∷ 3 ∷ [])
    ∷ ("classAsyncFw_1_1HttpSocket.html#ad51bb1bf5880c3037c7ad70231c0767d", 2 ∷ 0 ∷ 0 ∷ 28 ∷ 1 ∷ [])
    ∷ ("classAsyncFw_1_1Instance.html", 2 ∷ 0 ∷ 0 ∷ 30 ∷ [])
    ∷ ("classAsyncFw_1_1Instance.html#a3c6c90c36f431613e8fcfd0c195fdbe0", 2 ∷ 0 ∷ 0 ∷ 30 ∷ 2 ∷ [])
    ∷ ("classAsyncFw_1_1Instance.html#a6f25472f8b38f5cd6fa3d681919bf50a", 2 ∷ 0 ∷ 0 ∷ 30 ∷ 1 ∷ [])
    ∷ ("classAsyncFw_1_1Instance.html#aec767689656fb7dbb79dd7a130caa4ab", 2 ∷ 0 ∷ 0 ∷ 30 ∷ 0 ∷ [])
    ∷ ("classAsyncFw_1_1ListenSocket.html", 2 ∷ 0 ∷ 0 ∷ 31 ∷ [])
    ∷ (
      "classAsyncFw_1_1ListenSocket.html#a3dd69e137ca3cf50f90607c17bbdc312",
      2 ∷ 0 ∷ 0 ∷ 31 ∷ 1 ∷ [],
    )
    ∷ (
      "classAsyncFw_1_1ListenSocket.html#a426c3b10de20344079571d6708f096ca",
      2 ∷ 0 ∷ 0 ∷ 31 ∷ 4 ∷ [],
    )
    ∷ (
      "classAsyncFw_1_1ListenSocket.html#a73a200f0008dbf9f820bdb2b8a0054cf",
      2 ∷ 0 ∷ 0 ∷ 31 ∷ 3 ∷ [],
    )
    ∷ (
      "classAsyncFw_1_1ListenSocket.html#a77c0a9ea7c5061c406673bbe8b18d60d",
      2 ∷ 0 ∷ 0 ∷ 31 ∷ 2 ∷ [],
    )
    ∷ (
      "classAsyncFw_1_1ListenSocket.html#aa29d033332c09e341d159b2189c774e9",
      2 ∷ 0 ∷ 0 ∷ 31 ∷ 5 ∷ [],
    )
    ∷ (
      "classAsyncFw_1_1ListenSocket.html#ac1bc405f0f80094fd63f200f81977c57",
      2 ∷ 0 ∷ 0 ∷ 31 ∷ 0 ∷ [],
    )
    ∷ (
      "classAsyncFw_1_1ListenSocket.html#ad0eef1c8a0e89ee08edc4b40d4cb87e4",
      2 ∷ 0 ∷ 0 ∷ 31 ∷ 6 ∷ [],
    )
    ∷ ("classAsyncFw_1_1Log.html", 2 ∷ 0 ∷ 0 ∷ 33 ∷ [])
    ∷ ("classAsyncFw_1_1Log.html#a27bf2284363cc365c8af12e923b95db5", 2 ∷ 0 ∷ 0 ∷ 33 ∷ 2 ∷ [])
    ∷ ("classAsyncFw_1_1Log.html#a36128876c58bc05a4b8ec59144abdaa1", 2 ∷ 0 ∷ 0 ∷ 33 ∷ 5 ∷ [])
    ∷ ("classAsyncFw_1_1Log.html#a6b0ce40bc2e34f4b435894701194dc26", 2 ∷ 0 ∷ 0 ∷ 33 ∷ 3 ∷ [])
    ∷ ("classAsyncFw_1_1Log.html#a7f9618da213c4789bb158d337c819e22", 2 ∷ 0 ∷ 0 ∷ 33 ∷ 1 ∷ [])
    ∷ ("classAsyncFw_1_1Log.html#a832d13f4e9231eee37d8decb5b9b96d7", 2 ∷ 0 ∷ 0 ∷ 33 ∷ 0 ∷ [])
    ∷ ("classAsyncFw_1_1Log.html#a851f59ea9d9019403e3adffc04ddd07a", 2 ∷ 0 ∷ 0 ∷ 33 ∷ 10 ∷ [])
    ∷ ("classAsyncFw_1_1Log.html#a9cca0424e45994e01dc6257a07b1246b", 2 ∷ 0 ∷ 0 ∷ 33 ∷ 6 ∷ [])
    ∷ ("classAsyncFw_1_1Log.html#a9d4074dfb0cd3d2f54bc1301f6dcdfb8", 2 ∷ 0 ∷ 0 ∷ 33 ∷ 11 ∷ [])
    ∷ ("classAsyncFw_1_1Log.html#aa245705a619748ab41ad9b0a43b81767", 2 ∷ 0 ∷ 0 ∷ 33 ∷ 9 ∷ [])
    ∷ ("classAsyncFw_1_1Log.html#aa915e380895b72e2d636c73930b3f0e5", 2 ∷ 0 ∷ 0 ∷ 33 ∷ 4 ∷ [])
    ∷ ("classAsyncFw_1_1Log.html#ab990350e0de8b9a9c6153f7c67b7a527", 2 ∷ 0 ∷ 0 ∷ 33 ∷ 8 ∷ [])
    ∷ ("classAsyncFw_1_1Log.html#af85aba564a162221f53e80f010d7fbf3", 2 ∷ 0 ∷ 0 ∷ 33 ∷ 7 ∷ [])
    ∷ ("classAsyncFw_1_1LogStream.html", 2 ∷ 0 ∷ 0 ∷ 12 ∷ [])
    ∷ ("classAsyncFw_1_1LogStream.html#a17519bc7bb8b2108963175a62d990931", 2 ∷ 0 ∷ 0 ∷ 12 ∷ 2 ∷ [])
    ∷ ("classAsyncFw_1_1LogStream.html#a1c31d56a7729253b17bb8cff44d06dda", 2 ∷ 0 ∷ 0 ∷ 12 ∷ 6 ∷ [])
    ∷ ("classAsyncFw_1_1LogStream.html#a9803fa0aa3fed41eb72f4b63314579a6", 2 ∷ 0 ∷ 0 ∷ 12 ∷ 3 ∷ [])
    ∷ ("classAsyncFw_1_1LogStream.html#abaece5fcf0e6a72bc5cc468d851cd02e", 2 ∷ 0 ∷ 0 ∷ 12 ∷ 4 ∷ [])
    ∷ ("classAsyncFw_1_1LogStream.html#ae131a8f28831e608f08a311eaac8ccc5", 2 ∷ 0 ∷ 0 ∷ 12 ∷ 5 ∷ [])
    ∷ ("classAsyncFw_1_1LogStream.html#afa2f6c5311ced6b973d39d6e5ced5731", 2 ∷ 0 ∷ 0 ∷ 12 ∷ 1 ∷ [])
    ∷ (
      "classAsyncFw_1_1LogStream.html#afa2f6c5311ced6b973d39d6e5ced5731a39dfd70cbe9922423fa0db22b9dddfa2",
      2 ∷ 0 ∷ 0 ∷ 12 ∷ 1 ∷ 6 ∷ [],
    )
    ∷ (
      "classAsyncFw_1_1LogStream.html#afa2f6c5311ced6b973d39d6e5ced5731a55700379cc50408c01860c3a700d20a0",
      2 ∷ 0 ∷ 0 ∷ 12 ∷ 1 ∷ 5 ∷ [],
    )
    ∷ []
