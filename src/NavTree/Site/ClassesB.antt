-- ===== src/NavTree/Site/ClassesB.antt =====
-- The lists of members that the site loads for a class, docs/class*.js.
use async_fw.Base.{some}
use async_fw.NavTree.Entries.{entry, leaf, script, items, Entries, end, ◌⨾◌}

unfoldable pub class_abstract_socket : Entries
class_abstract_socket =
    entry "State" (some "classAsyncFw_1_1AbstractSocket.html#a6fc3dae51b6b38d67f1c3861dcbb23bd") (
      items (
        entry "Unconnected"
          (some
            "classAsyncFw_1_1AbstractSocket.html#a6fc3dae51b6b38d67f1c3861dcbb23bda65e37b7a6b547c0da9a63972db5dfd49")
          leaf
        ⨾ entry "Listening"
            (some
              "classAsyncFw_1_1AbstractSocket.html#a6fc3dae51b6b38d67f1c3861dcbb23bda5b13d3f73cf426c72bbd8598ede9442d")
            leaf
        ⨾ entry "Connecting"
            (some
              "classAsyncFw_1_1AbstractSocket.html#a6fc3dae51b6b38d67f1c3861dcbb23bdabba7ae24638871f8e94de4b4af31c37f")
            leaf
        ⨾ entry "Connected"
            (some
              "classAsyncFw_1_1AbstractSocket.html#a6fc3dae51b6b38d67f1c3861dcbb23bdaccd0feb91061e2ddcac7f6b90bf9efa5")
            leaf
        ⨾ entry "Active"
            (some
              "classAsyncFw_1_1AbstractSocket.html#a6fc3dae51b6b38d67f1c3861dcbb23bdabc8b14ad3e5c48f1e2be50e1f70fc237")
            leaf
        ⨾ entry "Closing"
            (some
              "classAsyncFw_1_1AbstractSocket.html#a6fc3dae51b6b38d67f1c3861dcbb23bda516ec5c0c571fe5c0d60881eddc2c22e")
            leaf
        ⨾ entry "Destroy"
            (some
              "classAsyncFw_1_1AbstractSocket.html#a6fc3dae51b6b38d67f1c3861dcbb23bda1bc468bc996ac9ce17018c3320ac5516")
            leaf
        ⨾ end))
    ⨾ entry "Error" (some "classAsyncFw_1_1AbstractSocket.html#a940a10b5f063e970cb7e46a61cab2415") (
        items (
          entry "None"
            (some
              "classAsyncFw_1_1AbstractSocket.html#a940a10b5f063e970cb7e46a61cab2415a906f37e70a41b6af3e5be5ca47662a45")
            leaf
          ⨾ entry "Closed"
              (some
                "classAsyncFw_1_1AbstractSocket.html#a940a10b5f063e970cb7e46a61cab2415a18bbf4b02f65dbe6f74715ae7b4682a6")
              leaf
          ⨾ entry "Refused"
              (some
                "classAsyncFw_1_1AbstractSocket.html#a940a10b5f063e970cb7e46a61cab2415a39ae7fa79f41ed464e63aee7b5918080")
              leaf
          ⨾ entry "Read"
              (some
                "classAsyncFw_1_1AbstractSocket.html#a940a10b5f063e970cb7e46a61cab2415ac89172e9f1ba9d2ab4230e50bc844739")
              leaf
          ⨾ entry "Write"
              (some
                "classAsyncFw_1_1AbstractSocket.html#a940a10b5f063e970cb7e46a61cab2415a6084632d3ad9ef3f0bce55a0751c817b")
              leaf
          ⨾ entry "Activate"
              (some
                "classAsyncFw_1_1AbstractSocket.html#a940a10b5f063e970cb7e46a61cab2415a650fdfa57cdb708fed90e3a8c3401d8f")
              leaf
          ⨾ end))
    ⨾ entry "OutputBufferMode"
        (some "classAsyncFw_1_1AbstractSocket.html#a8720ba9755d46ce21efa6056e7cf5034")
        (items (
          entry "Application"
            (some
              "classAsyncFw_1_1AbstractSocket.html#a8720ba9755d46ce21efa6056e7cf5034ae5cae7a164a407735575fa1f4760c7de")
            leaf
          ⨾ entry "Network"
              (some
                "classAsyncFw_1_1AbstractSocket.html#a8720ba9755d46ce21efa6056e7cf5034a279f21d56f24884fee5325f2ecd8326e")
              leaf
          ⨾ end))
    ⨾ entry "AbstractSocket"
        (some "classAsyncFw_1_1AbstractSocket.html#a2b3066513b7cf718a97fe6c9f3cc11e6") leaf
    ⨾ entry "AbstractSocket"
        (some "classAsyncFw_1_1AbstractSocket.html#aa66ea88eb21787155ef487b89da94f96") leaf
    ⨾ entry "~AbstractSocket"
        (some "classAsyncFw_1_1AbstractSocket.html#ad5fb89c73a0f4bcca190d3a4cab15a97") leaf
    ⨾ entry "setDescriptor"
        (some "classAsyncFw_1_1AbstractSocket.html#a0ffc2cb5dd293722a9336a528357f9c5") leaf
    ⨾ entry "connect" (some "classAsyncFw_1_1AbstractSocket.html#ac4b8765d203b4d4bc77d9d6e00d5dd85")
        leaf
    ⨾ entry "disconnect"
        (some "classAsyncFw_1_1AbstractSocket.html#a96c331ff22db7a34923c34f575075e6a") leaf
    ⨾ entry "close" (some "classAsyncFw_1_1AbstractSocket.html#a77c0a9ea7c5061c406673bbe8b18d60d")
        leaf
    ⨾ entry "destroy" (some "classAsyncFw_1_1AbstractSocket.html#a73a200f0008dbf9f820bdb2b8a0054cf")
        leaf
    ⨾ entry "removeFromThread"
        (some "classAsyncFw_1_1AbstractSocket.html#aa0f81593deeb67fe6a3031e9d57738d4") leaf
    ⨾ entry "listen" (some "classAsyncFw_1_1AbstractSocket.html#a426c3b10de20344079571d6708f096ca")
        leaf
    ⨾ entry "peek" (some "classAsyncFw_1_1AbstractSocket.html#a3f4a74f0ab83d096bd37118bb28d8654")
        leaf
    ⨾ entry "read" (some "classAsyncFw_1_1AbstractSocket.html#a374dd4ce66bfcc8a6dcf40b4ba552828")
        leaf
    ⨾ entry "read" (some "classAsyncFw_1_1AbstractSocket.html#a1896d02632e8ad50648e81b19f06743c")
        leaf
    ⨾ entry "write" (some "classAsyncFw_1_1AbstractSocket.html#a6b5bfbc488d553dca8a2d01b6b415482")
        leaf
    ⨾ entry "write" (some "classAsyncFw_1_1AbstractSocket.html#a4ad7bcd91ec7a91270d83bf583d62be1")
        leaf
    ⨾ entry "error" (some "classAsyncFw_1_1AbstractSocket.html#ab10c09c1cadc705e99866b527fc6cc52")
        leaf
    ⨾ entry "errorString"
        (some "classAsyncFw_1_1AbstractSocket.html#a7dec1397dbd20b891e20aeb14a253779") leaf
    ⨾ entry "thread" (some "classAsyncFw_1_1AbstractSocket.html#ac1b9b68ae7fe6c9312d9d713a7b444a9")
        leaf
    ⨾ entry "address" (some "classAsyncFw_1_1AbstractSocket.html#a3dd69e137ca3cf50f90607c17bbdc312")
        leaf
    ⨾ entry "port" (some "classAsyncFw_1_1AbstractSocket.html#aa29d033332c09e341d159b2189c774e9")
        leaf
    ⨾ entry "peerAddress"
        (some "classAsyncFw_1_1AbstractSocket.html#ab05320fcb1c111e06a56587b4abbb639") leaf
    ⨾ entry "peerPort"
        (some "classAsyncFw_1_1AbstractSocket.html#aa91adbe0ea3297083d63e26531daa266") leaf
    ⨾ entry "activateEvent"
        (some "classAsyncFw_1_1AbstractSocket.html#aac7ad6c4f9815d9b8b0817d38864d06d") leaf
    ⨾ entry "stateEvent"
        (some "classAsyncFw_1_1AbstractSocket.html#a5db12267a6d2241e81f570463f2d7ef5") leaf
    ⨾ entry "readEvent"
        (some "classAsyncFw_1_1AbstractSocket.html#a609ec54ec8aed39769d60319c4c15833") leaf
    ⨾ entry "writeEvent"
        (some "classAsyncFw_1_1AbstractSocket.html#af8141e7714603e6c83c0640a2d74ec90") leaf
    ⨾ entry "incomingEvent"
        (some "classAsyncFw_1_1AbstractSocket.html#ad6d428c75ae5b7321a3838b22abcdf6b") leaf
    ⨾ entry "read_available_fd"
        (some "classAsyncFw_1_1AbstractSocket.html#a64ec81f99806967d9244337b88ae03ba") leaf
    ⨾ entry "read_fd" (some "classAsyncFw_1_1AbstractSocket.html#acb6850773f2a617d9beb1bac6f0bf2f0")
        leaf
    ⨾ entry "write_fd"
        (some "classAsyncFw_1_1AbstractSocket.html#a4659df5988d2af771d4feee9edec55d8") leaf
    ⨾ entry "pendingRead"
        (some "classAsyncFw_1_1AbstractSocket.html#a75415b9f0ecc82b703e49ad8abf1f3a8") leaf
    ⨾ entry "pendingWrite"
        (some "classAsyncFw_1_1AbstractSocket.html#a5cc266f87cd4666f10b85a2c52b762bb") leaf
    ⨾ entry "setError"
        (some "classAsyncFw_1_1AbstractSocket.html#adf2d96f44c3abf205e637f3809bc614d") leaf
    ⨾ entry "setErrorString"
        (some "classAsyncFw_1_1AbstractSocket.html#aee9d948ab5f79cb9c0c45da1709c1159") leaf
    ⨾ entry "thread_" (some "classAsyncFw_1_1AbstractSocket.html#a49a607ef9c268469124164ab86971787")
        leaf
    ⨾ entry "fd_" (some "classAsyncFw_1_1AbstractSocket.html#a1380ccdb23066b7084eca638b4232761")
        leaf
    ⨾ entry "state_" (some "classAsyncFw_1_1AbstractSocket.html#aa4b74ce0259d4424ef41b2d10290351c")
        leaf
    ⨾ end

unfoldable pub class_abstract_task : Entries
class_abstract_task =
    entry "AbstractTask"
      (some "classAsyncFw_1_1AbstractTask.html#a0f1750e42ee13dd969f72fb99ef310b4") leaf
    ⨾ entry "~AbstractTask"
        (some "classAsyncFw_1_1AbstractTask.html#a711751422b8bf225f696f4a5c1cb3fcf") leaf
    ⨾ entry "running" (some "classAsyncFw_1_1AbstractTask.html#ab5c6c7ec53a111afcbd485f8c13b81f0")
        leaf
    ⨾ end

unfoldable pub class_abstract_thread : Entries
class_abstract_thread =
    entry "Waiter" (some "classAsyncFw_1_1AbstractThread_1_1Waiter.html")
      (script "classAsyncFw_1_1AbstractThread_1_1Waiter")
    ⨾ entry "LockGuard"
        (some "classAsyncFw_1_1AbstractThread.html#a4e97803ef650d36ba80ef1471c4b643c") leaf
    ⨾ entry "AbstractTask"
        (some "classAsyncFw_1_1AbstractThread.html#af2a69c1875d42b8daa41a82f000e4c2a") leaf
    ⨾ entry "AbstractPollTask"
        (some "classAsyncFw_1_1AbstractThread.html#ad3dad9f7e0852a4c24c2bae48c701802") leaf
    ⨾ entry "PollEvents"
        (some "classAsyncFw_1_1AbstractThread.html#a654efa5f41b38ff679e48211e8904a59") leaf
    ⨾ entry "AbstractThread"
        (some "classAsyncFw_1_1AbstractThread.html#a8c9202c90ac101522f26c4260cb01b59") leaf
    ⨾ entry "invoke" (some "classAsyncFw_1_1AbstractThread.html#a786474d037b50053f1a97af7b67e6069")
        leaf
    ⨾ entry "appendPollTask"
        (some "classAsyncFw_1_1AbstractThread.html#a7e5b6e93c0e2afca24874900b8aec919") leaf
    ⨾ entry "appendTimerTask"
        (some "classAsyncFw_1_1AbstractThread.html#aca9b6529df5d0faa3bd33174ba643aa1") leaf
    ⨾ entry "startedEvent"
        (some "classAsyncFw_1_1AbstractThread.html#a9b9db94ad8c90eafe1ef34a076af8498") leaf
    ⨾ entry "finishedEvent"
        (some "classAsyncFw_1_1AbstractThread.html#ad43b7b79e541bd1d6cce20f0231cc64d") leaf
    ⨾ entry "running" (some "classAsyncFw_1_1AbstractThread.html#aa317731738402e37a8a05d5a5ec9d7c4")
        leaf
    ⨾ entry "invokeTask"
        (some "classAsyncFw_1_1AbstractThread.html#abe96e6b2a1de041f0d25390a6b77e50a") leaf
    ⨾ entry "appendTimer"
        (some "classAsyncFw_1_1AbstractThread.html#a1fa8bc43151797cbcfb2013ee1fce2ce") leaf
    ⨾ entry "modifyTimer"
        (some "classAsyncFw_1_1AbstractThread.html#a4e367b49b300c1b93d2275b5840bb20b") leaf
    ⨾ entry "removeTimer"
        (some "classAsyncFw_1_1AbstractThread.html#ae8fc0b3f68faed69e7f0b4e940ef12c0") leaf
    ⨾ entry "appendPollDescriptor"
        (some "classAsyncFw_1_1AbstractThread.html#a9a4001da757d31945c4e6be4e20c31ed") leaf
    ⨾ entry "modifyPollDescriptor"
        (some "classAsyncFw_1_1AbstractThread.html#af295f768757d3c7d6cf32e5248cbc2e0") leaf
    ⨾ entry "removePollDescriptor"
        (some "classAsyncFw_1_1AbstractThread.html#a499a70b1d68a82fcded917a331f4cdef") leaf
    ⨾ entry "start" (some "classAsyncFw_1_1AbstractThread.html#afdaccb5da7d4bee5e9ff687f761bd21f")
        leaf
    ⨾ entry "requestInterrupt"
        (some "classAsyncFw_1_1AbstractThread.html#a16affc1626e26d18cc2d9eab21315591") leaf
    ⨾ entry "interruptRequested"
        (some "classAsyncFw_1_1AbstractThread.html#ab614c8e9a266d924e86c3c49c1a6ff36") leaf
    ⨾ entry "waitInterrupted"
        (some "classAsyncFw_1_1AbstractThread.html#a5d7785eb8b21e956a6b7ff880d3ae4c3") leaf
    ⨾ entry "quit" (some "classAsyncFw_1_1AbstractThread.html#afef57401f138e8de37eb8d817772d9ff")
        leaf
    ⨾ entry "waitFinished"
        (some "classAsyncFw_1_1AbstractThread.html#a4d12fe08b7d84311eaa56a9704b7c2ba") leaf
    ⨾ entry "workLoad"
        (some "classAsyncFw_1_1AbstractThread.html#a474577d15fa4b52abee863b44a0b7f89") leaf
    ⨾ entry "id" (some "classAsyncFw_1_1AbstractThread.html#a41d1cf92e033bcc11e2394cb949e031a") leaf
    ⨾ entry "name" (some "classAsyncFw_1_1AbstractThread.html#a0cd916251e061aaf3d456575ef052edd")
        leaf
    ⨾ entry "lockGuard"
        (some "classAsyncFw_1_1AbstractThread.html#a6e17293ccd9683f5bd8ca9a3dcd52e7d") leaf
    ⨾ entry "exec" (some "classAsyncFw_1_1AbstractThread.html#a1abe0f5c637dcc6af5aff00c5291bd4f")
        leaf
    ⨾ end
