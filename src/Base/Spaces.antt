-- ===== src/Base/Spaces.antt =====
-- The blanks of the regular expressions.
use async_fw.Base.{ℕ, Bool, ◌&&◌, ◌||◌, if◌then◌else◌, ◌==◌, leb, [], ◌∷◌}
use async_fw.Base.Text.{Text}

-- `\s`
unfoldable pub is_space : ℕ → Bool
is_space c =
    (leb 9 c && leb c 13)
    || (c == 32
        || (c == 0xa0
            || (c == 0x1680
                || ((leb 0x2000 c && leb c 0x200a)
                    || (c == 0x2028
                        || (c == 0x2029
                            || (c == 0x202f || (c == 0x205f || (c == 0x3000 || c == 0xfeff)))))))))

unfoldable pub drop_spaces : Text → Text
unfolding is_space
drop_spaces [] = []
drop_spaces (c ∷ t) = if is_space c then drop_spaces t else c ∷ t
