-- ===== src/NavTree/Site/ClassesF.antt =====
-- The lists of members that the site loads for a class, docs/class*.js.
use async_fw.Base.{some}
use async_fw.NavTree.Entries.{entry, leaf, script, items, Entries, end, ◌⨾◌}

unfoldable pub class_http_server_response : Entries
class_http_server_response =
    entry "StatusCode"
      (some "classAsyncFw_1_1HttpServer_1_1Response.html#ade630649387805688da86e8d0adaeb67") leaf
    ⨾ entry "setMimeType"
        (some "classAsyncFw_1_1HttpServer_1_1Response.html#a6a20c4899ac30402f9135573b44975f8") leaf
    ⨾ entry "mimeType"
        (some "classAsyncFw_1_1HttpServer_1_1Response.html#a773fc6cae4a86db031eba409412ca40f") leaf
    ⨾ entry "addHeader"
        (some "classAsyncFw_1_1HttpServer_1_1Response.html#a49cefe2de7569c227d2282f9a832beab") leaf
    ⨾ entry "header"
        (some "classAsyncFw_1_1HttpServer_1_1Response.html#a5dd46db3eac7d1a07948d072e71c11f2") leaf
    ⨾ entry "send"
        (some "classAsyncFw_1_1HttpServer_1_1Response.html#a52925841696f5351ff43b46530c18390") leaf
    ⨾ entry "setContent"
        (some "classAsyncFw_1_1HttpServer_1_1Response.html#a1e25071dfc003a6530edf35e0249e4b9") leaf
    ⨾ entry "setContent"
        (some "classAsyncFw_1_1HttpServer_1_1Response.html#ab9c9286252d93d6034b23f391c8fe8fb") leaf
    ⨾ entry "setStatusCode"
        (some "classAsyncFw_1_1HttpServer_1_1Response.html#a3bd5303884754553c8dcf33c3b98da3c") leaf
    ⨾ entry "fail"
        (some "classAsyncFw_1_1HttpServer_1_1Response.html#a23e3482fe2491dfa068dfda528087700") leaf
    ⨾ entry "destroy"
        (some "classAsyncFw_1_1HttpServer_1_1Response.html#afa24643371f00fe11d7df0f9caae4134") leaf
    ⨾ entry "statusCode"
        (some "classAsyncFw_1_1HttpServer_1_1Response.html#a763ad72776c70e9e6eb1aed082adbbed") leaf
    ⨾ entry "content"
        (some "classAsyncFw_1_1HttpServer_1_1Response.html#a1846436563e8710e368eefb4d6f9f726") leaf
    ⨾ entry "socket"
        (some "classAsyncFw_1_1HttpServer_1_1Response.html#ad33ca9292a0e375b907458eed9e70a67") leaf
    ⨾ end

unfoldable pub class_http_server_tcp_socket : Entries
class_http_server_tcp_socket =
    entry "TcpSocket"
      (some "classAsyncFw_1_1HttpServer_1_1TcpSocket.html#a41557b69e30e25b97cbdda210afb7657") leaf
    ⨾ entry "readEvent"
        (some "classAsyncFw_1_1HttpServer_1_1TcpSocket.html#abb44001861ba7b24633b54ae90c2896c") leaf
    ⨾ end

unfoldable pub class_http_socket : Entries
class_http_socket =
    entry "stateEvent" (some "classAsyncFw_1_1HttpSocket.html#ab3ee95c329a5f5c7ea659fe7809cc37e")
      leaf
    ⨾ entry "activateEvent"
        (some "classAsyncFw_1_1HttpSocket.html#ad51bb1bf5880c3037c7ad70231c0767d") leaf
    ⨾ entry "readEvent" (some "classAsyncFw_1_1HttpSocket.html#a7163448458d68f433dbdb214a6175be3")
        leaf
    ⨾ entry "writeEvent" (some "classAsyncFw_1_1HttpSocket.html#ac276bcd3a5e86289eb37ea7fd062559b")
        leaf
    ⨾ entry "disconnect" (some "classAsyncFw_1_1HttpSocket.html#a33dadd18584b3b2b76a02dffa0a831fb")
        leaf
    ⨾ entry "close" (some "classAsyncFw_1_1HttpSocket.html#a96932e5f6b5f84c4f204b0e6e4ef8472") leaf
    ⨾ entry "destroy" (some "classAsyncFw_1_1HttpSocket.html#a8268467d3581a4d393e9ccd288de32ff")
        leaf
    ⨾ end

unfoldable pub class_instance : Entries
class_instance =
    entry "Instance" (some "classAsyncFw_1_1Instance.html#aec767689656fb7dbb79dd7a130caa4ab") leaf
    ⨾ entry "~Instance" (some "classAsyncFw_1_1Instance.html#a6f25472f8b38f5cd6fa3d681919bf50a")
        leaf
    ⨾ entry "destroyValue" (some "classAsyncFw_1_1Instance.html#a3c6c90c36f431613e8fcfd0c195fdbe0")
        leaf
    ⨾ end

unfoldable pub class_listen_socket : Entries
class_listen_socket =
    entry "incomingEvent"
      (some "classAsyncFw_1_1ListenSocket.html#ac1bc405f0f80094fd63f200f81977c57") leaf
    ⨾ entry "address" (some "classAsyncFw_1_1ListenSocket.html#a3dd69e137ca3cf50f90607c17bbdc312")
        leaf
    ⨾ entry "close" (some "classAsyncFw_1_1ListenSocket.html#a77c0a9ea7c5061c406673bbe8b18d60d")
        leaf
    ⨾ entry "destroy" (some "classAsyncFw_1_1ListenSocket.html#a73a200f0008dbf9f820bdb2b8a0054cf")
        leaf
    ⨾ entry "listen" (some "classAsyncFw_1_1ListenSocket.html#a426c3b10de20344079571d6708f096ca")
        leaf
    ⨾ entry "port" (some "classAsyncFw_1_1ListenSocket.html#aa29d033332c09e341d159b2189c774e9") leaf
    ⨾ entry "incoming" (some "classAsyncFw_1_1ListenSocket.html#ad0eef1c8a0e89ee08edc4b40d4cb87e4")
        leaf
    ⨾ end

unfoldable pub class_log : Entries
class_log =
    entry "Log" (some "classAsyncFw_1_1Log.html#a832d13f4e9231eee37d8decb5b9b96d7") leaf
    ⨾ entry "~Log" (some "classAsyncFw_1_1Log.html#a7f9618da213c4789bb158d337c819e22") leaf
    ⨾ entry "finality" (some "classAsyncFw_1_1Log.html#a27bf2284363cc365c8af12e923b95db5") leaf
    ⨾ entry "output" (some "classAsyncFw_1_1Log.html#a6b0ce40bc2e34f4b435894701194dc26") leaf
    ⨾ entry "setAutoSave" (some "classAsyncFw_1_1Log.html#aa915e380895b72e2d636c73930b3f0e5") leaf
    ⨾ entry "rrdItemFromMessage" (some "classAsyncFw_1_1Log.html#a36128876c58bc05a4b8ec59144abdaa1")
        leaf
    ⨾ entry "messageFromRrdItem" (some "classAsyncFw_1_1Log.html#a9cca0424e45994e01dc6257a07b1246b")
        leaf
    ⨾ entry "readMessage" (some "classAsyncFw_1_1Log.html#af85aba564a162221f53e80f010d7fbf3") leaf
    ⨾ entry "writeMessage" (some "classAsyncFw_1_1Log.html#ab990350e0de8b9a9c6153f7c67b7a527") leaf
    ⨾ entry "save" (some "classAsyncFw_1_1Log.html#aa245705a619748ab41ad9b0a43b81767") leaf
    ⨾ entry "append" (some "classAsyncFw_1_1Log.html#a851f59ea9d9019403e3adffc04ddd07a") leaf
    ⨾ entry "append" (some "classAsyncFw_1_1Log.html#a9d4074dfb0cd3d2f54bc1301f6dcdfb8") leaf
    ⨾ end

unfoldable pub class_log_stream : Entries
class_log_stream =
    entry "Message" (some "structAsyncFw_1_1LogStream_1_1Message.html")
      (script "structAsyncFw_1_1LogStream_1_1Message")
    ⨾ entry "MessageType" (some "classAsyncFw_1_1LogStream.html#afa2f6c5311ced6b973d39d6e5ced5731")
        (items (
          entry "Emergency"
            (some
              "classAsyncFw_1_1LogStream.html#afa2f6c5311ced6b973d39d6e5ced5731a66e8e44e1adfebd567c25c6611a5e418")
            leaf
          ⨾ entry "Alert"
              (some
                "classAsyncFw_1_1LogStream.html#afa2f6c5311ced6b973d39d6e5ced5731a8e7cdb29641eddbcac3012fe6eb3cd3d")
              leaf
          ⨾ entry "Error"
              (some
                "classAsyncFw_1_1LogStream.html#afa2f6c5311ced6b973d39d6e5ced5731a735a344d42befe22f3f60ed4f1125351")
              leaf
          ⨾ entry "Warning"
              (some
                "classAsyncFw_1_1LogStream.html#afa2f6c5311ced6b973d39d6e5ced5731a96aad685f21a4a927c6c3a74274efd5a")
              leaf
          ⨾ entry "Notice"
              (some
                "classAsyncFw_1_1LogStream.html#afa2f6c5311ced6b973d39d6e5ced5731ae60e1a6347736018009842563cd57231")
              leaf
          ⨾ entry "Info"
              (some
                "classAsyncFw_1_1LogStream.html#afa2f6c5311ced6b973d39d6e5ced5731a55700379cc50408c01860c3a700d20a0")
              leaf
          ⨾ entry "Debug"
              (some
                "classAsyncFw_1_1LogStream.html#afa2f6c5311ced6b973d39d6e5ced5731a39dfd70cbe9922423fa0db22b9dddfa2")
              leaf
          ⨾ entry "Trace"
              (some
                "classAsyncFw_1_1LogStream.html#afa2f6c5311ced6b973d39d6e5ced5731ab9e4aeca51d007c66abb1ad6b93c3c37")
              leaf
          ⨾ end))
    ⨾ entry "Color" (some "classAsyncFw_1_1LogStream.html#a17519bc7bb8b2108963175a62d990931") leaf
    ⨾ entry "operator<<" (some "classAsyncFw_1_1LogStream.html#a9803fa0aa3fed41eb72f4b63314579a6")
        leaf
    ⨾ entry "space" (some "classAsyncFw_1_1LogStream.html#abaece5fcf0e6a72bc5cc468d851cd02e") leaf
    ⨾ entry "nospace" (some "classAsyncFw_1_1LogStream.html#ae131a8f28831e608f08a311eaac8ccc5") leaf
    ⨾ entry "flush" (some "classAsyncFw_1_1LogStream.html#a1c31d56a7729253b17bb8cff44d06dda") leaf
    ⨾ end
