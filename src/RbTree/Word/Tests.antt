-- ===== src/RbTree/Word/Tests.antt =====
-- The theorem of RbTree/Word at two addresses.
use struct.Base.{◌≡◌, arith}
use struct.RbTree.State.{red, black}
use struct.RbTree.Word.{
  word_parent, word_color, word_set_parent, word_set_parent_color, word_set_black, word_fields,
}

word_fields_example :
    (word_parent (word_set_parent_color 64 black) ≡ 64)
    × (word_color (word_set_parent_color 64 black) ≡ 1)
    × (word_set_parent (word_set_parent_color 64 black) 96 ≡ word_set_parent_color 96 black)
    × (word_set_black (word_set_parent_color 64 black) ≡ word_set_parent_color 64 black)
    × (word_set_parent_color 64 red ≡ 64)
word_fields_example = word_fields 64 96 black (omega arith) (omega arith)
