-- ===== src/NavTree/Entries.antt =====
-- The entries of the navigation tree, as docs/navtreedata.js and the scripts it names write them:
-- a label, a link or `null`, and the children, `null`, a list or the name of a script to load.
use Prim.Native.String.{String}
use async_fw.Base.{Option}

infixr 67 ◌⨾◌
mutual
  pub data Entry : Type 0 where
    entry : String → Option String → Children → Entry

  pub data Children : Type 0 where
    leaf : Children
    script : String → Children
    items : Entries → Children

  pub data Entries : Type 0 where
    end : Entries
    ◌⨾◌ : Entry → Entries → Entries
