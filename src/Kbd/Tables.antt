-- ===== src/Kbd/Tables.antt =====
-- apps/frames/prism/src/kbd/tables.c: the characters of the key codes, one table for each state of
-- shift, num lock and caps lock, as character codes.
use fenestella.Prelude.{ℕ, List, [], ◌∷◌}

abbrev pub kbd_key_ascii_default : List ℕ
kbd_key_ascii_default =
    0 ∷ 96 ∷ 49 ∷ 50 ∷ 51 ∷ 52 ∷ 53 ∷ 54 ∷ 55 ∷ 56 ∷ 57 ∷ 48 ∷ 45 ∷ 61 ∷ 113 ∷ 119 ∷ 101 ∷ 114 ∷ 116
    ∷ 121 ∷ 117 ∷ 105 ∷ 111 ∷ 112 ∷ 91 ∷ 93 ∷ 92 ∷ 97 ∷ 115 ∷ 100 ∷ 102 ∷ 103 ∷ 104 ∷ 106 ∷ 107
    ∷ 108 ∷ 59 ∷ 39 ∷ 122 ∷ 120 ∷ 99 ∷ 118 ∷ 98 ∷ 110 ∷ 109 ∷ 44 ∷ 46 ∷ 47 ∷ 32 ∷ 0 ∷ 0 ∷ 0 ∷ 0 ∷ 0
    ∷ 0 ∷ 0 ∷ 0 ∷ 0 ∷ 0 ∷ 0 ∷ 0 ∷ 0 ∷ 0 ∷ 0 ∷ 0 ∷ 10 ∷ 9 ∷ 8 ∷ []

abbrev pub kbd_key_ascii_numlock : List ℕ
kbd_key_ascii_numlock =
    0 ∷ 96 ∷ 49 ∷ 50 ∷ 51 ∷ 52 ∷ 53 ∷ 54 ∷ 55 ∷ 56 ∷ 57 ∷ 48 ∷ 45 ∷ 61 ∷ 113 ∷ 119 ∷ 101 ∷ 114 ∷ 116
    ∷ 121 ∷ 117 ∷ 105 ∷ 111 ∷ 112 ∷ 91 ∷ 93 ∷ 92 ∷ 97 ∷ 115 ∷ 100 ∷ 102 ∷ 103 ∷ 104 ∷ 106 ∷ 107
    ∷ 108 ∷ 59 ∷ 39 ∷ 122 ∷ 120 ∷ 99 ∷ 118 ∷ 98 ∷ 110 ∷ 109 ∷ 44 ∷ 46 ∷ 47 ∷ 32 ∷ 47 ∷ 42 ∷ 45 ∷ 43
    ∷ 55 ∷ 56 ∷ 57 ∷ 52 ∷ 53 ∷ 54 ∷ 49 ∷ 50 ∷ 51 ∷ 48 ∷ 46 ∷ 10 ∷ 10 ∷ 9 ∷ 8 ∷ []

abbrev pub kbd_key_ascii_capslock : List ℕ
kbd_key_ascii_capslock =
    0 ∷ 96 ∷ 49 ∷ 50 ∷ 51 ∷ 52 ∷ 53 ∷ 54 ∷ 55 ∷ 56 ∷ 57 ∷ 48 ∷ 45 ∷ 61 ∷ 81 ∷ 87 ∷ 69 ∷ 82 ∷ 84 ∷ 89
    ∷ 85 ∷ 73 ∷ 79 ∷ 80 ∷ 91 ∷ 93 ∷ 92 ∷ 65 ∷ 83 ∷ 68 ∷ 70 ∷ 71 ∷ 72 ∷ 74 ∷ 75 ∷ 76 ∷ 59 ∷ 39 ∷ 90
    ∷ 88 ∷ 67 ∷ 86 ∷ 66 ∷ 78 ∷ 77 ∷ 44 ∷ 44 ∷ 47 ∷ 32 ∷ 0 ∷ 0 ∷ 0 ∷ 0 ∷ 0 ∷ 0 ∷ 0 ∷ 0 ∷ 0 ∷ 0 ∷ 0
    ∷ 0 ∷ 0 ∷ 0 ∷ 0 ∷ 0 ∷ 10 ∷ 9 ∷ 8 ∷ []

abbrev pub kbd_key_ascii_numlock_capslock : List ℕ
kbd_key_ascii_numlock_capslock =
    0 ∷ 96 ∷ 49 ∷ 50 ∷ 51 ∷ 52 ∷ 53 ∷ 54 ∷ 55 ∷ 56 ∷ 57 ∷ 48 ∷ 45 ∷ 61 ∷ 81 ∷ 87 ∷ 69 ∷ 82 ∷ 84 ∷ 89
    ∷ 85 ∷ 73 ∷ 79 ∷ 80 ∷ 91 ∷ 93 ∷ 92 ∷ 65 ∷ 83 ∷ 68 ∷ 70 ∷ 71 ∷ 72 ∷ 74 ∷ 75 ∷ 76 ∷ 59 ∷ 39 ∷ 90
    ∷ 88 ∷ 67 ∷ 86 ∷ 66 ∷ 78 ∷ 77 ∷ 44 ∷ 44 ∷ 47 ∷ 32 ∷ 47 ∷ 42 ∷ 45 ∷ 43 ∷ 55 ∷ 56 ∷ 57 ∷ 52 ∷ 53
    ∷ 54 ∷ 49 ∷ 50 ∷ 51 ∷ 48 ∷ 46 ∷ 10 ∷ 10 ∷ 9 ∷ 8 ∷ []

abbrev pub kbd_key_ascii_shift : List ℕ
kbd_key_ascii_shift =
    0 ∷ 126 ∷ 33 ∷ 64 ∷ 35 ∷ 36 ∷ 37 ∷ 94 ∷ 38 ∷ 42 ∷ 40 ∷ 41 ∷ 95 ∷ 43 ∷ 81 ∷ 87 ∷ 69 ∷ 82 ∷ 84
    ∷ 89 ∷ 85 ∷ 73 ∷ 79 ∷ 80 ∷ 123 ∷ 125 ∷ 124 ∷ 65 ∷ 83 ∷ 68 ∷ 70 ∷ 71 ∷ 72 ∷ 74 ∷ 75 ∷ 76 ∷ 58
    ∷ 34 ∷ 90 ∷ 88 ∷ 67 ∷ 86 ∷ 66 ∷ 78 ∷ 77 ∷ 60 ∷ 62 ∷ 63 ∷ 32 ∷ 0 ∷ 0 ∷ 0 ∷ 0 ∷ 0 ∷ 0 ∷ 0 ∷ 0 ∷ 0
    ∷ 0 ∷ 0 ∷ 0 ∷ 0 ∷ 0 ∷ 0 ∷ 0 ∷ 10 ∷ 9 ∷ 8 ∷ []

abbrev pub kbd_key_ascii_shift_numlock : List ℕ
kbd_key_ascii_shift_numlock =
    0 ∷ 126 ∷ 33 ∷ 64 ∷ 35 ∷ 36 ∷ 37 ∷ 94 ∷ 38 ∷ 42 ∷ 40 ∷ 41 ∷ 95 ∷ 43 ∷ 81 ∷ 87 ∷ 69 ∷ 82 ∷ 84
    ∷ 89 ∷ 85 ∷ 73 ∷ 79 ∷ 80 ∷ 123 ∷ 125 ∷ 124 ∷ 65 ∷ 83 ∷ 68 ∷ 70 ∷ 71 ∷ 72 ∷ 74 ∷ 75 ∷ 76 ∷ 58
    ∷ 34 ∷ 90 ∷ 88 ∷ 67 ∷ 86 ∷ 66 ∷ 78 ∷ 77 ∷ 60 ∷ 62 ∷ 63 ∷ 32 ∷ 47 ∷ 42 ∷ 45 ∷ 43 ∷ 55 ∷ 56 ∷ 57
    ∷ 52 ∷ 53 ∷ 54 ∷ 49 ∷ 50 ∷ 51 ∷ 48 ∷ 46 ∷ 10 ∷ 10 ∷ 9 ∷ 8 ∷ []

abbrev pub kbd_key_ascii_shift_capslock : List ℕ
kbd_key_ascii_shift_capslock =
    0 ∷ 126 ∷ 33 ∷ 64 ∷ 35 ∷ 36 ∷ 37 ∷ 94 ∷ 38 ∷ 42 ∷ 40 ∷ 41 ∷ 95 ∷ 43 ∷ 113 ∷ 119 ∷ 101 ∷ 114
    ∷ 116 ∷ 121 ∷ 117 ∷ 105 ∷ 111 ∷ 112 ∷ 123 ∷ 125 ∷ 124 ∷ 97 ∷ 115 ∷ 100 ∷ 102 ∷ 103 ∷ 104 ∷ 106
    ∷ 107 ∷ 108 ∷ 58 ∷ 34 ∷ 122 ∷ 120 ∷ 99 ∷ 118 ∷ 98 ∷ 110 ∷ 109 ∷ 60 ∷ 62 ∷ 63 ∷ 32 ∷ 0 ∷ 0 ∷ 0
    ∷ 0 ∷ 0 ∷ 0 ∷ 0 ∷ 0 ∷ 0 ∷ 0 ∷ 0 ∷ 0 ∷ 0 ∷ 0 ∷ 0 ∷ 0 ∷ 10 ∷ 9 ∷ 8 ∷ []

abbrev pub kbd_key_ascii_shift_numlock_capslock : List ℕ
kbd_key_ascii_shift_numlock_capslock =
    0 ∷ 126 ∷ 33 ∷ 64 ∷ 35 ∷ 36 ∷ 37 ∷ 94 ∷ 38 ∷ 42 ∷ 40 ∷ 41 ∷ 95 ∷ 43 ∷ 113 ∷ 119 ∷ 101 ∷ 114
    ∷ 116 ∷ 121 ∷ 117 ∷ 105 ∷ 111 ∷ 112 ∷ 123 ∷ 125 ∷ 124 ∷ 97 ∷ 115 ∷ 100 ∷ 102 ∷ 103 ∷ 104 ∷ 106
    ∷ 107 ∷ 108 ∷ 58 ∷ 34 ∷ 122 ∷ 120 ∷ 99 ∷ 118 ∷ 98 ∷ 110 ∷ 109 ∷ 60 ∷ 62 ∷ 63 ∷ 32 ∷ 47 ∷ 42 ∷ 45
    ∷ 43 ∷ 55 ∷ 56 ∷ 57 ∷ 52 ∷ 53 ∷ 54 ∷ 49 ∷ 50 ∷ 51 ∷ 48 ∷ 46 ∷ 10 ∷ 10 ∷ 9 ∷ 8 ∷ []
