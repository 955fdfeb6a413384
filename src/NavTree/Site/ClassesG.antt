-- ===== src/NavTree/Site/ClassesG.antt =====
-- The lists of members that the site loads for a class, docs/class*.js.
use async_fw.Base.{some}
use async_fw.NavTree.Entries.{entry, leaf, script, items, Entries, end, ◌⨾◌}

unfoldable pub class_multicast_dns : Entries
class_multicast_dns =
    entry "Host" (some "structAsyncFw_1_1MulticastDns_1_1Host.html")
      (script "structAsyncFw_1_1MulticastDns_1_1Host")
    ⨾ entry "QuerierMode"
        (some "classAsyncFw_1_1MulticastDns.html#a4db656bae572e9b28e1ebef4b6f05465")
        (items (
          entry "Multicast"
            (some
              "classAsyncFw_1_1MulticastDns.html#a4db656bae572e9b28e1ebef4b6f05465a846f46532ca6212d12ee0d1024f6de98")
            leaf
          ⨾ entry "Unicast"
              (some
                "classAsyncFw_1_1MulticastDns.html#a4db656bae572e9b28e1ebef4b6f05465a1951dca893badeb1f1992fa9805ebb91")
              leaf
          ⨾ end))
    ⨾ entry "MulticastDns"
        (some "classAsyncFw_1_1MulticastDns.html#ab9bfb41e98cd4ecf1cc63f8acd023afd") leaf
    ⨾ entry "hosts" (some "classAsyncFw_1_1MulticastDns.html#a1aae9d9612ba077da938bb80a8c3330d")
        leaf
    ⨾ entry "setServiceType"
        (some "classAsyncFw_1_1MulticastDns.html#a6604b92ff217e3502a3eca746efe9403") leaf
    ⨾ entry "serviceType"
        (some "classAsyncFw_1_1MulticastDns.html#a23e336e5c39f79f847b12014558e8dda") leaf
    ⨾ entry "startService"
        (some "classAsyncFw_1_1MulticastDns.html#a010507720899efd7b653d3e33bc64f0a") leaf
    ⨾ entry "stopService"
        (some "classAsyncFw_1_1MulticastDns.html#a9740e59f3a6a0f48dba3381c0324eee1") leaf
    ⨾ entry "serviceRunning"
        (some "classAsyncFw_1_1MulticastDns.html#acfe6df81240db7979782c2df5a117c91") leaf
    ⨾ entry "startQuerier"
        (some "classAsyncFw_1_1MulticastDns.html#a99f55a2e095da0b02e7e29b1cc0f47eb") leaf
    ⨾ entry "startQuerier"
        (some "classAsyncFw_1_1MulticastDns.html#a1aaa9222fa44159da442b8ce403152ab") leaf
    ⨾ entry "stopQuerier"
        (some "classAsyncFw_1_1MulticastDns.html#a03b1bd87ba47f61a0443e42cec2a78cb") leaf
    ⨾ entry "querierRunning"
        (some "classAsyncFw_1_1MulticastDns.html#a9afe98db8817d4d9c6b6eb1ba07f5e60") leaf
    ⨾ entry "sendQuery" (some "classAsyncFw_1_1MulticastDns.html#a091b0f3d62c8f78f33a396f4cbf140b0")
        leaf
    ⨾ entry "hostAdded" (some "classAsyncFw_1_1MulticastDns.html#a973574ac5d99e8b3ef2455ded3e90407")
        leaf
    ⨾ entry "hostChanged"
        (some "classAsyncFw_1_1MulticastDns.html#a00da8b82983f3da4d37809761b04df10") leaf
    ⨾ entry "hostRemoved"
        (some "classAsyncFw_1_1MulticastDns.html#a97cbf66dbddc356f45aad429e118d287") leaf
    ⨾ end

unfoldable pub class_poll_notifier : Entries
class_poll_notifier =
    entry "PollNotifier"
      (some "classAsyncFw_1_1PollNotifier.html#abe469fd8ab6f5a38c562aa2885075ec6") leaf
    ⨾ entry "setDescriptor"
        (some "classAsyncFw_1_1PollNotifier.html#a383eab2a439eb7cf82f1ddc38a6204cb") leaf
    ⨾ entry "setEvents" (some "classAsyncFw_1_1PollNotifier.html#a5a1c30a1fcfc343457e07db934165893")
        leaf
    ⨾ entry "removeDescriptor"
        (some "classAsyncFw_1_1PollNotifier.html#a63d989535fa3af6dcb2e8656999f8315") leaf
    ⨾ entry "descriptor"
        (some "classAsyncFw_1_1PollNotifier.html#a5b2ff26b63b3d2f46b04892c6899217c") leaf
    ⨾ entry "fail" (some "classAsyncFw_1_1PollNotifier.html#a52d96002ff262ab846331324c64882e0") leaf
    ⨾ entry "notify" (some "classAsyncFw_1_1PollNotifier.html#a8bcd61fb697ec4d0d53b942feb5b8026")
        leaf
    ⨾ end

unfoldable pub class_rrd : Entries
class_rrd =
    entry "Rrd" (some "classAsyncFw_1_1Rrd.html#a2fd20dd3470a11ef179577c565c333f1") leaf
    ⨾ entry "Rrd" (some "classAsyncFw_1_1Rrd.html#a98c7829cc6177c80245cf95095deb3ba") leaf
    ⨾ entry "Rrd" (some "classAsyncFw_1_1Rrd.html#aaea6a63444ab427f801be34f26d930d5") leaf
    ⨾ entry "Rrd" (some "classAsyncFw_1_1Rrd.html#aa54ae298c96e9efe88b644931b12f734") leaf
    ⨾ entry "~Rrd" (some "classAsyncFw_1_1Rrd.html#a56d6e047fa884528c91286f552f8a239") leaf
    ⨾ entry "setAverage" (some "classAsyncFw_1_1Rrd.html#ac1e21d6150414b6d7632aff22f8f13c7") leaf
    ⨾ entry "read" (some "classAsyncFw_1_1Rrd.html#a171ca62295eb74da3e222bb14e14dea8") leaf
    ⨾ entry "size" (some "classAsyncFw_1_1Rrd.html#a330145de892c6f5e916d7dda15aeedfc") leaf
    ⨾ entry "count" (some "classAsyncFw_1_1Rrd.html#a2da84a54164e2273cb4183d9f2a72dec") leaf
    ⨾ entry "readFromArray" (some "classAsyncFw_1_1Rrd.html#a74af3bc94a8b411adf93b0abe8745441") leaf
    ⨾ entry "writeToArray" (some "classAsyncFw_1_1Rrd.html#a4aa5bc0099565061c0fc1c72cf99d8c6") leaf
    ⨾ entry "append" (some "classAsyncFw_1_1Rrd.html#a4c33c8721d57d0b3666549a52bf2a696") leaf
    ⨾ entry "save" (some "classAsyncFw_1_1Rrd.html#a7f2590f1a87af46970c6e54eefb4c6f6") leaf
    ⨾ entry "clear" (some "classAsyncFw_1_1Rrd.html#a6d232ea0ea88fcfcd7ad84e9129f84e3") leaf
    ⨾ entry "lastIndex" (some "classAsyncFw_1_1Rrd.html#a113f3548987e7b830295e91bc74e2b89") leaf
    ⨾ entry "thread" (some "classAsyncFw_1_1Rrd.html#a0e1fdab32966afe235c8a3cbb9c3c528") leaf
    ⨾ entry "updated" (some "classAsyncFw_1_1Rrd.html#a7ff19310fbae9fbf6b6a2b26bceb7cec") leaf
    ⨾ end

unfoldable pub class_rrd_client : Entries
class_rrd_client =
    entry "RrdClient" (some "classAsyncFw_1_1RrdClient.html#a99c8606f7788c0ab1d468b61b4de9adf") leaf
    ⨾ entry "~RrdClient" (some "classAsyncFw_1_1RrdClient.html#a9db5f1a5ddaa3c083851d557764937c0")
        leaf
    ⨾ entry "connectToHost"
        (some "classAsyncFw_1_1RrdClient.html#ab598862c2fcddef6f476db9d1ed9faf6") leaf
    ⨾ entry "connectToHost"
        (some "classAsyncFw_1_1RrdClient.html#ad8724d7772f037925d9694c1afc20d8e") leaf
    ⨾ entry "disconnectFromHost"
        (some "classAsyncFw_1_1RrdClient.html#a7437419c70ea6d55a6a701211b4582a2") leaf
    ⨾ entry "transmit" (some "classAsyncFw_1_1RrdClient.html#a4d6d253c85c993ed6906efe3ced940a7")
        leaf
    ⨾ entry "setTlsContext"
        (some "classAsyncFw_1_1RrdClient.html#af2fd0de2fbfbca76e20f85d2d572f83b") leaf
    ⨾ end

unfoldable pub class_rrd_server : Entries
class_rrd_server =
    entry "RrdServer" (some "classAsyncFw_1_1RrdServer.html#a80621329e326c77a65c5e4e65efa511d") leaf
    ⨾ entry "~RrdServer" (some "classAsyncFw_1_1RrdServer.html#ad57e2c435b5730d56efe5615e31b0075")
        leaf
    ⨾ entry "quit" (some "classAsyncFw_1_1RrdServer.html#a36cdc4d3eb393265d357c727d31f18d5") leaf
    ⨾ entry "transmit" (some "classAsyncFw_1_1RrdServer.html#a518ff8e41bae78f1b1c0e099514e56eb")
        leaf
    ⨾ entry "tcpServer" (some "classAsyncFw_1_1RrdServer.html#a1d88715a189ea36663ca192b64886700")
        leaf
    ⨾ end

unfoldable pub class_system_process : Entries
class_system_process =
    entry "State" (some "classAsyncFw_1_1SystemProcess.html#afad39352d4d8376d1304bc340a0cf32f") (
      items (
        entry "None"
          (some
            "classAsyncFw_1_1SystemProcess.html#afad39352d4d8376d1304bc340a0cf32fae6056f73a5ee0f2e5e9a810511d30121")
          leaf
        ⨾ entry "Running"
            (some
              "classAsyncFw_1_1SystemProcess.html#afad39352d4d8376d1304bc340a0cf32fad676c3df6d4070608540d7160f773e1b")
            leaf
        ⨾ entry "Finished"
            (some
              "classAsyncFw_1_1SystemProcess.html#afad39352d4d8376d1304bc340a0cf32fafbad76ce6453263110ca967474dfa1a7")
            leaf
        ⨾ entry "Crashed"
            (some
              "classAsyncFw_1_1SystemProcess.html#afad39352d4d8376d1304bc340a0cf32fa71589da9ec6d6bf72db63b0706ecfb60")
            leaf
        ⨾ entry "Error"
            (some
              "classAsyncFw_1_1SystemProcess.html#afad39352d4d8376d1304bc340a0cf32fa49cb88a476197da70de9c7ea73b5d089")
            leaf
        ⨾ end))
    ⨾ entry "SystemProcess"
        (some "classAsyncFw_1_1SystemProcess.html#acf60a585a89304fdb3580e9add06d155") leaf
    ⨾ entry "~SystemProcess"
        (some "classAsyncFw_1_1SystemProcess.html#ae280edaf59815e2e4cbac2ba71382d21") leaf
    ⨾ entry "start" (some "classAsyncFw_1_1SystemProcess.html#a07450fc564490581360f8ff9244291c8")
        leaf
    ⨾ entry "start" (some "classAsyncFw_1_1SystemProcess.html#a9bed6483038544317152552027178459")
        leaf
    ⨾ entry "state" (some "classAsyncFw_1_1SystemProcess.html#ab0bbc948a5d59acc1bfc2327cb74f4c1")
        leaf
    ⨾ entry "pid" (some "classAsyncFw_1_1SystemProcess.html#aacaa74369b6cc27a9f0cd29f6dd6fa18") leaf
    ⨾ entry "wait" (some "classAsyncFw_1_1SystemProcess.html#a98555529994f67d993e103999604f1ed")
        leaf
    ⨾ entry "exitCode" (some "classAsyncFw_1_1SystemProcess.html#a3916d3f3c7f90b7a6e099258daee8762")
        leaf
    ⨾ entry "input" (some "classAsyncFw_1_1SystemProcess.html#a2474831568ca17479f4b7b4350cb13c8")
        leaf
    ⨾ entry "stateChanged"
        (some "classAsyncFw_1_1SystemProcess.html#a15a6e0feb095b9ad2ea2bdfb7014ca2c") leaf
    ⨾ entry "output" (some "classAsyncFw_1_1SystemProcess.html#abbb594e48966f013c2efaf50e26b5e36")
        leaf
    ⨾ end

unfoldable pub class_task : Entries
class_task =
    entry "Task" (some "classAsyncFw_1_1Task.html#a66a8f9dd8f4f46945a073aef2d62a368") leaf
    ⨾ entry "operator()" (some "classAsyncFw_1_1Task.html#af8d5f8f89323935f98976293c1b16300") leaf
    ⨾ end
