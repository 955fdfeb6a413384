-- ===== src/NavTree/Site/ClassesH.antt =====
-- The lists of members that the site loads for a class, docs/class*.js.
use async_fw.Base.{some}
use async_fw.NavTree.Entries.{entry, leaf, items, Entries, end, ◌⨾◌}

unfoldable pub class_thread : Entries
class_thread =
    entry "Thread" (some "classAsyncFw_1_1Thread.html#afc5e422090767dd84020381fb9a4d490") leaf
    ⨾ entry "startedEvent" (some "classAsyncFw_1_1Thread.html#ae03f85da53209734bdafe450f45e5d53")
        leaf
    ⨾ entry "finishedEvent" (some "classAsyncFw_1_1Thread.html#ae9fc9cf8baddcc8dfa0e14784918c4a5")
        leaf
    ⨾ entry "started" (some "classAsyncFw_1_1Thread.html#abac958eae1def0e3c0e32a7ebebc45eb") leaf
    ⨾ entry "finished" (some "classAsyncFw_1_1Thread.html#ad4c31cb77c83c080affcd0cda66debe4") leaf
    ⨾ entry "destroying" (some "classAsyncFw_1_1Thread.html#a2586807d64cba1eb6bd6af4e0cc4919a") leaf
    ⨾ entry "sockets_" (some "classAsyncFw_1_1Thread.html#a92780087225a95405529ddabbce2ae07") leaf
    ⨾ end

unfoldable pub class_thread_pool : Entries
class_thread_pool =
    entry "createThread" (some "classAsyncFw_1_1ThreadPool.html#a02cf5b98df2bbd01b4757e09fceece49")
      leaf
    ⨾ entry "removeThread"
        (some "classAsyncFw_1_1ThreadPool.html#ad7f14a964e683f021a4d6c1c0a8bbf5d") leaf
    ⨾ entry "getThread" (some "classAsyncFw_1_1ThreadPool.html#a4e73e16c0af130d6311c29952b11f720")
        leaf
    ⨾ end

unfoldable pub class_timer : Entries
class_timer =
    entry "start" (some "classAsyncFw_1_1Timer.html#a14d02d88bd3682afd7c8fd72cc670e46") leaf
    ⨾ entry "stop" (some "classAsyncFw_1_1Timer.html#a63f0eb44b27402196590a03781515dba") leaf
    ⨾ entry "coTimeout" (some "classAsyncFw_1_1Timer.html#aad1874fc8c5f41c278e4e4de81609e54") leaf
    ⨾ entry "timeout" (some "classAsyncFw_1_1Timer.html#acf307d575a38d2b3bb852202d0126fcd") leaf
    ⨾ end

unfoldable pub class_tls_context : Entries
class_tls_context =
    entry "IgnoreErrors" (some "classAsyncFw_1_1TlsContext.html#a34b8c61895eaf10b54060df0feb54de8")
      (items (
        entry "TimeValidity"
          (some
            "classAsyncFw_1_1TlsContext.html#a34b8c61895eaf10b54060df0feb54de8a09006eb216323640dc70de9a126e31f5")
          leaf
        ⨾ end))
    ⨾ entry "key" (some "classAsyncFw_1_1TlsContext.html#adbefc1c150e7e2965f27e154fce622e4") leaf
    ⨾ entry "certificate" (some "classAsyncFw_1_1TlsContext.html#a1f84d5908bb3af689637ef250ddb1467")
        leaf
    ⨾ entry "trusted" (some "classAsyncFw_1_1TlsContext.html#a0c268a29a857a658f0ed1254cbff746b")
        leaf
    ⨾ entry "setKey" (some "classAsyncFw_1_1TlsContext.html#acbec0996184d7c2de72f7ea02344d849") leaf
    ⨾ entry "setCertificate"
        (some "classAsyncFw_1_1TlsContext.html#afb5237df49026bf53948efaafaa2f0f9") leaf
    ⨾ entry "appendTrusted"
        (some "classAsyncFw_1_1TlsContext.html#a98271f22f48785585546a63f4e3f22af") leaf
    ⨾ entry "empty" (some "classAsyncFw_1_1TlsContext.html#a84b0d6eb6ccb1e73664cb059e4ae0bb6") leaf
    ⨾ entry "verifyCertificate"
        (some "classAsyncFw_1_1TlsContext.html#a0355cba7c5bc6468bc9b53e0a21cfaef") leaf
    ⨾ entry "generateKey" (some "classAsyncFw_1_1TlsContext.html#a10b3110e2d30a54d84c276716fb7d10a")
        leaf
    ⨾ entry "generateCertificate"
        (some "classAsyncFw_1_1TlsContext.html#abda15e8e7a7417b458bdade8a5196ec3") leaf
    ⨾ entry "generateRequest"
        (some "classAsyncFw_1_1TlsContext.html#afc9e3204ccec18ac6029b5a4eb65f089") leaf
    ⨾ entry "signRequest" (some "classAsyncFw_1_1TlsContext.html#afa0f66d0eb5f4a0e5b6e3f0017488bd6")
        leaf
    ⨾ entry "commonName" (some "classAsyncFw_1_1TlsContext.html#a305eeaf7d1cab7631a9a29ddc9b937b8")
        leaf
    ⨾ entry "infoKey" (some "classAsyncFw_1_1TlsContext.html#aac5676503ece10fccb60192d4cd573c5")
        leaf
    ⨾ entry "infoCertificate"
        (some "classAsyncFw_1_1TlsContext.html#a6d9871b944dda7508bf311ed1de76031") leaf
    ⨾ entry "infoTrusted" (some "classAsyncFw_1_1TlsContext.html#ae71ae4d15772edd1b68914cdc2e6e3b1")
        leaf
    ⨾ entry "verifyPeer" (some "classAsyncFw_1_1TlsContext.html#a7e91efeef7720c709f396b8322b27c15")
        leaf
    ⨾ entry "setVerifyPeer"
        (some "classAsyncFw_1_1TlsContext.html#aa737deca3889536ad8de72d46694afd6") leaf
    ⨾ entry "verifyName" (some "classAsyncFw_1_1TlsContext.html#a41b30deddf357c3196a88ec491954261")
        leaf
    ⨾ entry "setVerifyName"
        (some "classAsyncFw_1_1TlsContext.html#af91659fea6356bbfb141951ad725b4b2") leaf
    ⨾ entry "setIgnoreErrors"
        (some "classAsyncFw_1_1TlsContext.html#a8ff0baee1fbf9337ea367d1da7c5e475") leaf
    ⨾ entry "opensslCtx" (some "classAsyncFw_1_1TlsContext.html#a61e8dab3c3cf42cb434191c252a1f4ab")
        leaf
    ⨾ end
