-- ===== src/NavTree/Site/Shard2C.antt =====
-- Quarter 3 of an index file: pages and their places in the tree, docs/navtreeindex2.js.
-- The file lists `functions.html` and `functions_func.html` twice; in an object literal the later
-- entry of a key stands, and only that one is here.
use Prim.Native.String.{String}
use async_fw.Base.{ℕ, List, [], ◌∷◌}

unfoldable pub shard_2_c : List (String × List ℕ)
shard_2_c =
    ("classAsyncFw_1_1TlsContext.html#aac5676503ece10fccb60192d4cd573c5", 2 ∷ 0 ∷ 0 ∷ 14 ∷ 14 ∷ [])
    ∷ (
      "classAsyncFw_1_1TlsContext.html#abda15e8e7a7417b458bdade8a5196ec3",
      2 ∷ 0 ∷ 0 ∷ 14 ∷ 10 ∷ [],
    )
    ∷ ("classAsyncFw_1_1TlsContext.html#acbec0996184d7c2de72f7ea02344d849", 2 ∷ 0 ∷ 0 ∷ 14 ∷ 4 ∷ [])
    ∷ ("classAsyncFw_1_1TlsContext.html#adbefc1c150e7e2965f27e154fce622e4", 2 ∷ 0 ∷ 0 ∷ 14 ∷ 1 ∷ [])
    ∷ (
      "classAsyncFw_1_1TlsContext.html#ae71ae4d15772edd1b68914cdc2e6e3b1",
      2 ∷ 0 ∷ 0 ∷ 14 ∷ 16 ∷ [],
    )
    ∷ (
      "classAsyncFw_1_1TlsContext.html#af91659fea6356bbfb141951ad725b4b2",
      2 ∷ 0 ∷ 0 ∷ 14 ∷ 20 ∷ [],
    )
    ∷ (
      "classAsyncFw_1_1TlsContext.html#afa0f66d0eb5f4a0e5b6e3f0017488bd6",
      2 ∷ 0 ∷ 0 ∷ 14 ∷ 12 ∷ [],
    )
    ∷ ("classAsyncFw_1_1TlsContext.html#afb5237df49026bf53948efaafaa2f0f9", 2 ∷ 0 ∷ 0 ∷ 14 ∷ 5 ∷ [])
    ∷ (
      "classAsyncFw_1_1TlsContext.html#afc9e3204ccec18ac6029b5a4eb65f089",
      2 ∷ 0 ∷ 0 ∷ 14 ∷ 11 ∷ [],
    )
    ∷ ("classes.html", 2 ∷ 1 ∷ [])
    ∷ ("console__msg_8hpp_source.html", 3 ∷ 0 ∷ 0 ∷ 4 ∷ [])
    ∷ ("dir_4270bfced15e0e73154b13468c7c9ad9.html", 3 ∷ 0 ∷ 0 ∷ [])
    ∷ ("dir_5c982d53a68cdbcd421152b4020263a9.html", 3 ∷ 0 ∷ 1 ∷ [])
    ∷ ("examples.html", 4 ∷ [])
    ∷ ("extend__trace_8hpp_source.html", 3 ∷ 0 ∷ 0 ∷ 6 ∷ [])
    ∷ ("files.html", 3 ∷ 0 ∷ [])
    ∷ ("functions.html", 2 ∷ 3 ∷ 0 ∷ 0 ∷ [])
    ∷ ("functions_c.html", 2 ∷ 3 ∷ 0 ∷ 1 ∷ [])
    ∷ ("functions_d.html", 2 ∷ 3 ∷ 0 ∷ 2 ∷ [])
    ∷ ("functions_e.html", 2 ∷ 3 ∷ 0 ∷ 3 ∷ [])
    ∷ ("functions_enum.html", 2 ∷ 3 ∷ 4 ∷ [])
    ∷ ("functions_eval.html", 2 ∷ 3 ∷ 5 ∷ [])
    ∷ ("functions_f.html", 2 ∷ 3 ∷ 0 ∷ 4 ∷ [])
    ∷ ("functions_func.html", 2 ∷ 3 ∷ 1 ∷ 0 ∷ [])
    ∷ ("functions_func_c.html", 2 ∷ 3 ∷ 1 ∷ 1 ∷ [])
    ∷ ("functions_func_d.html", 2 ∷ 3 ∷ 1 ∷ 2 ∷ [])
    ∷ ("functions_func_e.html", 2 ∷ 3 ∷ 1 ∷ 3 ∷ [])
    ∷ ("functions_func_f.html", 2 ∷ 3 ∷ 1 ∷ 4 ∷ [])
    ∷ ("functions_func_g.html", 2 ∷ 3 ∷ 1 ∷ 5 ∷ [])
    ∷ ("functions_func_h.html", 2 ∷ 3 ∷ 1 ∷ 6 ∷ [])
    ∷ ("functions_func_i.html", 2 ∷ 3 ∷ 1 ∷ 7 ∷ [])
    ∷ ("functions_func_j.html", 2 ∷ 3 ∷ 1 ∷ 8 ∷ [])
    ∷ ("functions_func_k.html", 2 ∷ 3 ∷ 1 ∷ 9 ∷ [])
    ∷ ("functions_func_l.html", 2 ∷ 3 ∷ 1 ∷ 10 ∷ [])
    ∷ ("functions_func_m.html", 2 ∷ 3 ∷ 1 ∷ 11 ∷ [])
    ∷ ("functions_func_n.html", 2 ∷ 3 ∷ 1 ∷ 12 ∷ [])
    ∷ ("functions_func_o.html", 2 ∷ 3 ∷ 1 ∷ 13 ∷ [])
    ∷ ("functions_func_p.html", 2 ∷ 3 ∷ 1 ∷ 14 ∷ [])
    ∷ ("functions_func_q.html", 2 ∷ 3 ∷ 1 ∷ 15 ∷ [])
    ∷ ("functions_func_r.html", 2 ∷ 3 ∷ 1 ∷ 16 ∷ [])
    ∷ ("functions_func_s.html", 2 ∷ 3 ∷ 1 ∷ 17 ∷ [])
    ∷ ("functions_func_t.html", 2 ∷ 3 ∷ 1 ∷ 18 ∷ [])
    ∷ ("functions_func_u.html", 2 ∷ 3 ∷ 1 ∷ 19 ∷ [])
    ∷ ("functions_func_v.html", 2 ∷ 3 ∷ 1 ∷ 20 ∷ [])
    ∷ ("functions_func_w.html", 2 ∷ 3 ∷ 1 ∷ 21 ∷ [])
    ∷ ("functions_func_~.html", 2 ∷ 3 ∷ 1 ∷ 22 ∷ [])
    ∷ ("functions_g.html", 2 ∷ 3 ∷ 0 ∷ 5 ∷ [])
    ∷ ("functions_h.html", 2 ∷ 3 ∷ 0 ∷ 6 ∷ [])
    ∷ ("functions_i.html", 2 ∷ 3 ∷ 0 ∷ 7 ∷ [])
    ∷ ("functions_j.html", 2 ∷ 3 ∷ 0 ∷ 8 ∷ [])
    ∷ ("functions_k.html", 2 ∷ 3 ∷ 0 ∷ 9 ∷ [])
    ∷ ("functions_l.html", 2 ∷ 3 ∷ 0 ∷ 10 ∷ [])
    ∷ ("functions_m.html", 2 ∷ 3 ∷ 0 ∷ 11 ∷ [])
    ∷ ("functions_n.html", 2 ∷ 3 ∷ 0 ∷ 12 ∷ [])
    ∷ ("functions_o.html", 2 ∷ 3 ∷ 0 ∷ 13 ∷ [])
    ∷ ("functions_p.html", 2 ∷ 3 ∷ 0 ∷ 14 ∷ [])
    ∷ ("functions_q.html", 2 ∷ 3 ∷ 0 ∷ 15 ∷ [])
    ∷ ("functions_r.html", 2 ∷ 3 ∷ 0 ∷ 16 ∷ [])
    ∷ ("functions_s.html", 2 ∷ 3 ∷ 0 ∷ 17 ∷ [])
    ∷ ("functions_t.html", 2 ∷ 3 ∷ 0 ∷ 18 ∷ [])
    ∷ []
