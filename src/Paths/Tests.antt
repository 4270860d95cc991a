-- ===== src/Paths/Tests.antt =====
-- fs/path.c: the path /ab//c/.
use kernel_travel.Base.{ℕ, ◌≡◌, refl, List, [], ◌∷◌, ◌++◌, arith, replicate, ok}
use kernel_travel.Paths.{path_depth_cnt}
use kernel_travel.Paths.Depth.{IsText, path_depth_cnt-names}

abbrev text : List ℕ
text = 47 ∷ 97 ∷ 98 ∷ 47 ∷ 47 ∷ 99 ∷ 47 ∷ []

abbrev buffer : List ℕ
buffer = 7 ∷ replicate 127 0

text-IsText : IsText text
text-IsText = ground arith

path_depth_cnt-names_example : path_depth_cnt (text ++ 0 ∷ []) buffer ≡ ok 2
path_depth_cnt-names_example =
    path_depth_cnt-names text [] buffer 7 text-IsText refl refl (omega arith)
