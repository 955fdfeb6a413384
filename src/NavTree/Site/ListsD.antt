-- ===== src/NavTree/Site/ListsD.antt =====
-- The other lists that the site loads on demand, docs/*.js.
use async_fw.Base.{some}
use async_fw.NavTree.Entries.{entry, leaf, script, Entries, end, ◌⨾◌}

unfoldable pub struct_multicast_dns_host : Entries
struct_multicast_dns_host =
    entry "name"
      (some "structAsyncFw_1_1MulticastDns_1_1Host.html#a505099c452dad4bfcaa5e1bdc3f56f82") leaf
    ⨾ entry "ipv4"
        (some "structAsyncFw_1_1MulticastDns_1_1Host.html#a57f0b04e6bb05cc48b7c205c959ec964") leaf
    ⨾ entry "llipv4"
        (some "structAsyncFw_1_1MulticastDns_1_1Host.html#a153d28d6f64ff9992efef53a035d35c3") leaf
    ⨾ entry "misc"
        (some "structAsyncFw_1_1MulticastDns_1_1Host.html#a987597239d178d34f2bea34880e11cd8") leaf
    ⨾ entry "port"
        (some "structAsyncFw_1_1MulticastDns_1_1Host.html#a52a728b597d34fc89757944f97a002b8") leaf
    ⨾ end

unfoldable pub topics : Entries
topics =
    entry "Coroutine API Helpers" (some "group__coroutine__api.html")
      (script "group__coroutine__api")
    ⨾ end
