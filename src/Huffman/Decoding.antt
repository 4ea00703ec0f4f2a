-- ===== src/Huffman/Decoding.antt =====
-- `huffdectable_q3` of src/huffmantable_q3.h, as runs of equal entries: how many, the byte, and the
-- length of its code. (The value 256 at index 4 is stored into an `unsigned char`, as 0.)
use qwnet_library.Prelude.{ℕ, List, [], ◌∷◌, ◌++◌, replicate}

abbrev dec_runs_0 : List (ℕ × ℕ × ℕ)
dec_runs_0 =
    (4, 208, 9)
    ∷ (1, 0, 11)
    ∷ (1, 247, 11)
    ∷ (2, 243, 10)
    ∷ (4, 70, 9)
    ∷ (4, 146, 9)
    ∷ (16, 117, 7)
    ∷ (32, 195, 6)
    ∷ (16, 6, 7)
    ∷ (16, 65, 7)
    ∷ (16, 101, 7)
    ∷ (4, 71, 9)
    ∷ (4, 90, 9)
    ∷ (2, 241, 10)
    ∷ (2, 45, 10)
    ∷ (4, 18, 9)
    ∷ (16, 126, 7)
    ∷ (16, 2, 7)
    ∷ (8, 105, 8)
    ∷ (4, 91, 9)
    ∷ (2, 251, 10)
    ∷ (2, 245, 10)
    ∷ (16, 125, 7)
    ∷ (8, 237, 8)
    ∷ (8, 108, 8)
    ∷ (4, 17, 9)
    ∷ (2, 219, 10)
    ∷ (2, 249, 10)
    ∷ (8, 95, 8)
    ∷ (4, 176, 9)
    ∷ (4, 168, 9)
    ∷ (8, 199, 8)
    ∷ (8, 47, 8)
    ∷ (2, 223, 10)
    ∷ (2, 227, 10)
    ∷ (4, 19, 9)
    ∷ (16, 67, 7)
    ∷ (4, 34, 9)
    ∷ (4, 62, 9)
    ∷ (4, 107, 9)
    ∷ (4, 141, 9)
    ∷ (32, 255, 6)
    ∷ (2, 43, 10)
    ∷ (2, 185, 10)
    ∷ (4, 160, 9)
    ∷ (4, 40, 9)
    ∷ (2, 217, 10)
    ∷ (2, 215, 10)
    ∷ (8, 192, 8)
    ∷ (8, 31, 8)
    ∷ (16, 9, 7)
    ∷ (8, 139, 8)
    ∷ (4, 24, 9)
    ∷ (4, 46, 9)
    ∷ (8, 110, 8)
    ∷ (8, 113, 8)
    ∷ (16, 130, 7)
    ∷ (2, 163, 10)
    ∷ (2, 201, 10)
    ∷ (4, 80, 9)
    ∷ (4, 15, 9)
    ∷ (2, 41, 10)
    ∷ (2, 181, 10)
    ∷ (16, 3, 7)
    ∷ (32, 104, 6)
    ∷ []

abbrev dec_runs_1 : List (ℕ × ℕ × ℕ)
dec_runs_1 =
    (8, 97, 8)
    ∷ (4, 61, 9)
    ∷ (2, 187, 10)
    ∷ (2, 179, 10)
    ∷ (16, 66, 7)
    ∷ (512, 0, 2)
    ∷ (8, 134, 8)
    ∷ (4, 142, 9)
    ∷ (2, 211, 10)
    ∷ (2, 189, 10)
    ∷ (8, 102, 8)
    ∷ (2, 221, 10)
    ∷ (2, 239, 10)
    ∷ (2, 165, 10)
    ∷ (2, 177, 10)
    ∷ (8, 68, 8)
    ∷ (8, 4, 8)
    ∷ (2, 169, 10)
    ∷ (2, 235, 10)
    ∷ (4, 55, 9)
    ∷ (8, 121, 8)
    ∷ (8, 5, 8)
    ∷ (4, 225, 9)
    ∷ (2, 59, 10)
    ∷ (2, 231, 10)
    ∷ (8, 69, 8)
    ∷ (4, 224, 9)
    ∷ (2, 167, 10)
    ∷ (2, 244, 10)
    ∷ (2, 157, 10)
    ∷ (2, 233, 10)
    ∷ (4, 144, 9)
    ∷ (8, 53, 8)
    ∷ (2, 229, 10)
    ∷ (2, 44, 10)
    ∷ (2, 85, 10)
    ∷ (2, 75, 10)
    ∷ (4, 57, 9)
    ∷ (4, 200, 9)
    ∷ (16, 196, 7)
    ∷ (16, 232, 7)
    ∷ (16, 129, 7)
    ∷ (16, 10, 7)
    ∷ (8, 119, 8)
    ∷ (2, 226, 10)
    ∷ (2, 183, 10)
    ∷ (4, 58, 9)
    ∷ (16, 116, 7)
    ∷ (8, 14, 8)
    ∷ (2, 213, 10)
    ∷ (2, 252, 10)
    ∷ (2, 159, 10)
    ∷ (2, 209, 10)
    ∷ (8, 115, 8)
    ∷ (2, 153, 10)
    ∷ (2, 250, 10)
    ∷ (2, 161, 10)
    ∷ (2, 37, 10)
    ∷ (2, 248, 10)
    ∷ (2, 238, 10)
    ∷ (4, 93, 9)
    ∷ (8, 112, 8)
    ∷ (2, 202, 10)
    ∷ (2, 155, 10)
    ∷ (2, 149, 10)
    ∷ []

abbrev dec_runs_2 : List (ℕ × ℕ × ℕ)
dec_runs_2 =
    (2, 171, 10)
    ∷ (2, 180, 10)
    ∷ (2, 242, 10)
    ∷ (2, 205, 10)
    ∷ (2, 36, 10)
    ∷ (16, 16, 7)
    ∷ (16, 127, 7)
    ∷ (64, 8, 5)
    ∷ (4, 54, 9)
    ∷ (2, 212, 10)
    ∷ (2, 38, 10)
    ∷ (2, 191, 10)
    ∷ (2, 253, 10)
    ∷ (2, 25, 10)
    ∷ (2, 218, 10)
    ∷ (4, 143, 9)
    ∷ (2, 175, 10)
    ∷ (2, 206, 10)
    ∷ (2, 173, 10)
    ∷ (2, 35, 10)
    ∷ (2, 214, 10)
    ∷ (2, 39, 10)
    ∷ (32, 13, 6)
    ∷ (2, 207, 10)
    ∷ (2, 246, 10)
    ∷ (2, 204, 10)
    ∷ (2, 166, 10)
    ∷ (2, 81, 10)
    ∷ (2, 188, 10)
    ∷ (4, 76, 9)
    ∷ (8, 194, 8)
    ∷ (2, 210, 10)
    ∷ (2, 164, 10)
    ∷ (2, 20, 10)
    ∷ (2, 222, 10)
    ∷ (2, 151, 10)
    ∷ (2, 178, 10)
    ∷ (4, 72, 9)
    ∷ (4, 106, 9)
    ∷ (2, 216, 10)
    ∷ (2, 220, 10)
    ∷ (16, 131, 7)
    ∷ (2, 203, 10)
    ∷ (2, 186, 10)
    ∷ (4, 193, 9)
    ∷ (8, 133, 8)
    ∷ (8, 29, 8)
    ∷ (8, 49, 8)
    ∷ (2, 228, 10)
    ∷ (2, 236, 10)
    ∷ (2, 60, 10)
    ∷ (2, 23, 10)
    ∷ (8, 122, 8)
    ∷ (2, 73, 10)
    ∷ (2, 190, 10)
    ∷ (2, 145, 10)
    ∷ (2, 27, 10)
    ∷ (2, 154, 10)
    ∷ (2, 170, 10)
    ∷ (2, 86, 10)
    ∷ (2, 182, 10)
    ∷ (16, 12, 7)
    ∷ (8, 52, 8)
    ∷ (2, 33, 10)
    ∷ (2, 230, 10)
    ∷ []

abbrev dec_runs_3 : List (ℕ × ℕ × ℕ)
dec_runs_3 =
    (2, 84, 10)
    ∷ (2, 184, 10)
    ∷ (2, 42, 10)
    ∷ (2, 87, 10)
    ∷ (2, 162, 10)
    ∷ (2, 79, 10)
    ∷ (8, 111, 8)
    ∷ (8, 123, 8)
    ∷ (4, 96, 9)
    ∷ (2, 63, 10)
    ∷ (2, 21, 10)
    ∷ (16, 11, 7)
    ∷ (8, 120, 8)
    ∷ (2, 174, 10)
    ∷ (2, 89, 10)
    ∷ (4, 140, 9)
    ∷ (2, 148, 10)
    ∷ (2, 22, 10)
    ∷ (2, 156, 10)
    ∷ (2, 152, 10)
    ∷ (2, 26, 10)
    ∷ (2, 77, 10)
    ∷ (4, 98, 9)
    ∷ (2, 150, 10)
    ∷ (2, 172, 10)
    ∷ (2, 82, 10)
    ∷ (2, 83, 10)
    ∷ (4, 94, 9)
    ∷ (2, 28, 10)
    ∷ (2, 158, 10)
    ∷ (64, 1, 5)
    ∷ (4, 56, 9)
    ∷ (2, 234, 10)
    ∷ (2, 198, 10)
    ∷ (8, 135, 8)
    ∷ (8, 114, 8)
    ∷ (4, 92, 9)
    ∷ (2, 78, 10)
    ∷ (2, 197, 10)
    ∷ (16, 48, 7)
    ∷ (8, 136, 8)
    ∷ (8, 137, 8)
    ∷ (8, 118, 8)
    ∷ (4, 100, 9)
    ∷ (4, 51, 9)
    ∷ (8, 138, 8)
    ∷ (2, 88, 10)
    ∷ (2, 74, 10)
    ∷ (2, 240, 10)
    ∷ (2, 147, 10)
    ∷ (32, 32, 6)
    ∷ (8, 132, 8)
    ∷ (4, 109, 9)
    ∷ (4, 99, 9)
    ∷ (4, 30, 9)
    ∷ (4, 103, 9)
    ∷ (8, 64, 8)
    ∷ (16, 254, 7)
    ∷ (8, 124, 8)
    ∷ (8, 50, 8)
    ∷ (32, 128, 6)
    ∷ (32, 7, 6)
    ∷ []

-- The 2048 entries in runs.
abbrev pub dec_runs : List (ℕ × ℕ × ℕ)
dec_runs = dec_runs_0 ++ (dec_runs_1 ++ (dec_runs_2 ++ (dec_runs_3)))

abbrev expand : List (ℕ × ℕ × ℕ) → List (ℕ × ℕ)
expand [] = []
expand ((n, value, len) ∷ runs) = replicate n (value, len) ++ expand runs

-- `huffdectable_q3`, indexed by the next 11 bits of the stream.
unfoldable pub dec_table : List (ℕ × ℕ)
dec_table = expand dec_runs
