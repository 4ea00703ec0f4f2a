-- ===== src/Huffman/Encoding.antt =====
-- `huffenctable_q3` of src/huffmantable_q3.h: the length and the code of each byte, the code left
-- aligned in 16 bits.
use qwnet_library.Prelude.{ℕ, List, [], ◌∷◌, ◌++◌}

abbrev enc_table_0 : List (ℕ × ℕ)
enc_table_0 =
    (2, 0x4000)
    ∷ (5, 0xd800)
    ∷ (7, 0x1200)
    ∷ (7, 0x3600)
    ∷ (8, 0x8500)
    ∷ (8, 0x8800)
    ∷ (7, 0x800)
    ∷ (6, 0xfc00)
    ∷ (5, 0xa800)
    ∷ (7, 0x2c00)
    ∷ (7, 0x9600)
    ∷ (7, 0xd000)
    ∷ (7, 0xc800)
    ∷ (6, 0xb400)
    ∷ (8, 0x9c00)
    ∷ (9, 0x3500)
    ∷ (7, 0xa400)
    ∷ (9, 0x1a00)
    ∷ (9, 0xf80)
    ∷ (9, 0x1f80)
    ∷ (10, 0xbb80)
    ∷ (10, 0xcfc0)
    ∷ (10, 0xd440)
    ∷ (10, 0xc4c0)
    ∷ (9, 0x2f00)
    ∷ (10, 0xb180)
    ∷ (10, 0xd500)
    ∷ (10, 0xc6c0)
    ∷ (10, 0xd780)
    ∷ (8, 0xc200)
    ∷ (9, 0xf200)
    ∷ (8, 0x2b00)
    ∷ (6, 0xec00)
    ∷ (10, 0xcb00)
    ∷ (9, 0x2200)
    ∷ (10, 0xb340)
    ∷ (10, 0xa3c0)
    ∷ (10, 0x9fc0)
    ∷ (10, 0xb0c0)
    ∷ (10, 0xb3c0)
    ∷ (9, 0x2900)
    ∷ (10, 0x3580)
    ∷ (10, 0xcc00)
    ∷ (10, 0x2800)
    ∷ (10, 0x8e40)
    ∷ (10, 0xf40)
    ∷ (9, 0x2f80)
    ∷ (8, 0x1e00)
    ∷ (7, 0xe400)
    ∷ (8, 0xc300)
    ∷ (8, 0xf700)
    ∷ (9, 0xe980)
    ∷ (8, 0xca00)
    ∷ (8, 0x8d00)
    ∷ (9, 0xb000)
    ∷ (9, 0x8680)
    ∷ (9, 0xe000)
    ∷ (9, 0x8f00)
    ∷ (9, 0x9980)
    ∷ (10, 0x8980)
    ∷ (10, 0xc480)
    ∷ (9, 0x3d00)
    ∷ (9, 0x2280)
    ∷ (10, 0xcf80)
    ∷ []

abbrev enc_table_1 : List (ℕ × ℕ)
enc_table_1 =
    (8, 0xf300)
    ∷ (7, 0xa00)
    ∷ (7, 0x3e00)
    ∷ (7, 0x2000)
    ∷ (8, 0x8400)
    ∷ (8, 0x8a00)
    ∷ (9, 0x100)
    ∷ (9, 0xe00)
    ∷ (9, 0xbc80)
    ∷ (10, 0xc600)
    ∷ (10, 0xeb40)
    ∷ (10, 0x8ec0)
    ∷ (9, 0xb980)
    ∷ (10, 0xd540)
    ∷ (10, 0xe380)
    ∷ (10, 0xccc0)
    ∷ (9, 0x3480)
    ∷ (10, 0xb900)
    ∷ (10, 0xd680)
    ∷ (10, 0xd6c0)
    ∷ (10, 0xcb80)
    ∷ (10, 0x8e80)
    ∷ (10, 0xc780)
    ∷ (10, 0xcc40)
    ∷ (10, 0xeb00)
    ∷ (10, 0xd340)
    ∷ (9, 0xe80)
    ∷ (9, 0x1500)
    ∷ (9, 0xe300)
    ∷ (9, 0xa080)
    ∷ (9, 0xd700)
    ∷ (8, 0x1b00)
    ∷ (9, 0xcf00)
    ∷ (8, 0x3c00)
    ∷ (9, 0xd580)
    ∷ (9, 0xf180)
    ∷ (9, 0xe900)
    ∷ (7, 0xc00)
    ∷ (8, 0x8200)
    ∷ (9, 0xf280)
    ∷ (6, 0x3800)
    ∷ (8, 0x1400)
    ∷ (9, 0xbd00)
    ∷ (9, 0x2300)
    ∷ (8, 0x1900)
    ∷ (9, 0xf100)
    ∷ (8, 0x3000)
    ∷ (8, 0xcd00)
    ∷ (8, 0xa100)
    ∷ (8, 0x3100)
    ∷ (8, 0xe200)
    ∷ (8, 0x9e00)
    ∷ (7, 0x9a00)
    ∷ (7, 0x200)
    ∷ (8, 0xe800)
    ∷ (8, 0x9800)
    ∷ (8, 0xd200)
    ∷ (8, 0x8700)
    ∷ (8, 0xc500)
    ∷ (8, 0xce00)
    ∷ (8, 0xf600)
    ∷ (7, 0x1600)
    ∷ (7, 0x1000)
    ∷ (7, 0xa600)
    ∷ []

abbrev enc_table_2 : List (ℕ × ℕ)
enc_table_2 =
    (6, 0xf800)
    ∷ (7, 0x9400)
    ∷ (7, 0x3200)
    ∷ (7, 0xbe00)
    ∷ (8, 0xf000)
    ∷ (8, 0xc100)
    ∷ (8, 0x8000)
    ∷ (8, 0xe100)
    ∷ (8, 0xe600)
    ∷ (8, 0xe700)
    ∷ (8, 0xea00)
    ∷ (8, 0x2e00)
    ∷ (9, 0xd380)
    ∷ (9, 0x2380)
    ∷ (9, 0x8100)
    ∷ (9, 0xb200)
    ∷ (9, 0x8c80)
    ∷ (10, 0xc680)
    ∷ (9, 0x180)
    ∷ (10, 0xebc0)
    ∷ (10, 0xd400)
    ∷ (10, 0xa280)
    ∷ (10, 0xd600)
    ∷ (10, 0xbc00)
    ∷ (10, 0xd4c0)
    ∷ (10, 0x9f00)
    ∷ (10, 0xc700)
    ∷ (10, 0xa240)
    ∷ (10, 0xd480)
    ∷ (10, 0x8c00)
    ∷ (10, 0xd7c0)
    ∷ (10, 0x9d80)
    ∷ (9, 0x2880)
    ∷ (10, 0x9f80)
    ∷ (10, 0xcc80)
    ∷ (10, 0x3400)
    ∷ (10, 0xbb40)
    ∷ (10, 0x8380)
    ∷ (10, 0xb8c0)
    ∷ (10, 0x8b80)
    ∷ (9, 0x1c80)
    ∷ (10, 0x8600)
    ∷ (10, 0xc740)
    ∷ (10, 0xa2c0)
    ∷ (10, 0xd640)
    ∷ (10, 0xb300)
    ∷ (10, 0xd300)
    ∷ (10, 0xb280)
    ∷ (9, 0x1c00)
    ∷ (10, 0x83c0)
    ∷ (10, 0xbc40)
    ∷ (10, 0x3dc0)
    ∷ (10, 0xa300)
    ∷ (10, 0x35c0)
    ∷ (10, 0xc7c0)
    ∷ (10, 0x9940)
    ∷ (10, 0xcbc0)
    ∷ (10, 0x2840)
    ∷ (10, 0xc040)
    ∷ (10, 0x3d80)
    ∷ (10, 0xb940)
    ∷ (10, 0x81c0)
    ∷ (10, 0xc640)
    ∷ (10, 0xb100)
    ∷ []

abbrev enc_table_3 : List (ℕ × ℕ)
enc_table_3 =
    (8, 0x2a00)
    ∷ (9, 0xc080)
    ∷ (8, 0xba00)
    ∷ (6, 0x400)
    ∷ (7, 0x9000)
    ∷ (10, 0xe3c0)
    ∷ (10, 0xe0c0)
    ∷ (8, 0x1d00)
    ∷ (9, 0x8f80)
    ∷ (10, 0x3440)
    ∷ (10, 0xa200)
    ∷ (10, 0xc000)
    ∷ (10, 0xb880)
    ∷ (10, 0xa380)
    ∷ (10, 0xb2c0)
    ∷ (10, 0xb800)
    ∷ (9, 0x0)
    ∷ (10, 0x9dc0)
    ∷ (10, 0xbb00)
    ∷ (10, 0x8180)
    ∷ (10, 0xb080)
    ∷ (10, 0x9d00)
    ∷ (10, 0xb380)
    ∷ (10, 0x29c0)
    ∷ (10, 0xbd80)
    ∷ (10, 0x2980)
    ∷ (10, 0xb1c0)
    ∷ (10, 0x1a80)
    ∷ (10, 0xbdc0)
    ∷ (10, 0x8300)
    ∷ (10, 0xbbc0)
    ∷ (10, 0x1f00)
    ∷ (9, 0x8b00)
    ∷ (9, 0x8900)
    ∷ (10, 0x9900)
    ∷ (10, 0x1f40)
    ∷ (10, 0xc400)
    ∷ (10, 0x8e00)
    ∷ (10, 0xcb40)
    ∷ (10, 0x89c0)
    ∷ (7, 0x9200)
    ∷ (10, 0x8c40)
    ∷ (10, 0xe080)
    ∷ (10, 0x8640)
    ∷ (10, 0xc440)
    ∷ (8, 0x1800)
    ∷ (10, 0xa040)
    ∷ (10, 0x8340)
    ∷ (10, 0xeb80)
    ∷ (10, 0xf00)
    ∷ (10, 0xa340)
    ∷ (10, 0xc0)
    ∷ (10, 0x8bc0)
    ∷ (10, 0x15c0)
    ∷ (10, 0xb840)
    ∷ (11, 0xa0)
    ∷ (10, 0xa000)
    ∷ (10, 0x1ac0)
    ∷ (10, 0x9f40)
    ∷ (10, 0x1580)
    ∷ (10, 0x9d40)
    ∷ (10, 0xb140)
    ∷ (7, 0xf400)
    ∷ (6, 0x2400)
    ∷ []

-- `huffenctable_q3`
abbrev pub enc_table : List (ℕ × ℕ)
enc_table = enc_table_0 ++ (enc_table_1 ++ (enc_table_2 ++ (enc_table_3)))
