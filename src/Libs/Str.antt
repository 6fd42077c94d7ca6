-- ===== src/Libs/Str.antt =====
-- lab8/libs/string.c: memory and string routines. Memory is a function from addresses to bytes (below
-- 256); an address range is assumed not to wrap. A loop to the end of a string takes fuel.
pub mod Move
pub mod Cstring
pub mod Compare
pub mod Copy
pub mod Find
mod Tests
use os_labs.Common.{
  ℕ, zero, suc, ◌+◌, ◌-◌, Bool, true, false, not, ◌&&◌, Option, none, some, ◌==◌, ltb, leb,
  if◌then◌else◌, Run, ok, no_fuel, ◌>>=◌, ℤ, pos, sub_ℕ,
}

abbrev pub Memory : Type 0
Memory = ℕ → ℕ

unfoldable pub store : Memory → ℕ → ℕ → Memory
store m p v a = if a == p then v else m a

unfoldable pub strlen_loop : ℕ → ℕ → ℕ → Memory → Run ℕ
strlen_loop zero s cnt m = no_fuel
strlen_loop (suc fuel) s cnt m =
    let rest = strlen_loop fuel (s + 1) (cnt + 1) m in if m s == 0 then ok cnt else rest

unfoldable pub strlen : ℕ → ℕ → Memory → Run ℕ
strlen fuel s m = strlen_loop fuel s 0 m

-- the rounds that are left take the place of `cnt < len`
unfoldable pub strnlen_loop : ℕ → ℕ → ℕ → Memory → ℕ
strnlen_loop zero s cnt m = cnt
strnlen_loop (suc left) s cnt m =
    let rest = strnlen_loop left (s + 1) (cnt + 1) m in if m s == 0 then cnt else rest

unfoldable pub strnlen : ℕ → ℕ → Memory → ℕ
strnlen s len m = strnlen_loop len s 0 m

unfoldable pub strcpy_loop : ℕ → ℕ → ℕ → Memory → Run Memory
strcpy_loop zero p src m = no_fuel
strcpy_loop (suc fuel) p src m =
    let m' = store m p (m src) in
    let rest = strcpy_loop fuel (p + 1) (src + 1) m' in if m src == 0 then ok m' else rest

-- `strcpy` returns `dst`; the model gives the memory after it
unfoldable pub strcpy : ℕ → ℕ → ℕ → Memory → Run Memory
strcpy fuel dst src m = strcpy_loop fuel dst src m

unfoldable pub strncpy : ℕ → ℕ → ℕ → Memory → Memory
strncpy p src zero m = m
strncpy p src (suc len) m =
    strncpy (p + 1) (if m src == 0 then src else src + 1) len (store m p (m src))

unfoldable pub strcat : ℕ → ℕ → ℕ → Memory → Run Memory
strcat fuel dst src m = do len ← strlen fuel dst m; strcpy fuel (dst + len) src m

unfoldable pub strcmp : ℕ → ℕ → ℕ → Memory → Run ℤ
strcmp zero s₁ s₂ m = no_fuel
strcmp (suc fuel) s₁ s₂ m =
    let rest = strcmp fuel (s₁ + 1) (s₂ + 1) m in
    if not (m s₁ == 0) && (m s₁ == m s₂) then rest else ok (sub_ℕ (m s₁) (m s₂))

unfoldable pub strncmp : ℕ → ℕ → ℕ → Memory → ℤ
strncmp s₁ s₂ zero m = pos 0
strncmp s₁ s₂ (suc n) m =
    let rest = strncmp (s₁ + 1) (s₂ + 1) n m in
    if not (m s₁ == 0) && (m s₁ == m s₂) then rest else sub_ℕ (m s₁) (m s₂)

-- `none` is NULL
unfoldable pub strchr : ℕ → ℕ → ℕ → Memory → Run (Option ℕ)
strchr zero s c m = no_fuel
strchr (suc fuel) s c m =
    let rest = strchr fuel (s + 1) c m in
    if m s == 0 then ok none else if m s == c then ok (some s) else rest

unfoldable pub strfind : ℕ → ℕ → ℕ → Memory → Run ℕ
strfind zero s c m = no_fuel
strfind (suc fuel) s c m =
    let rest = strfind fuel (s + 1) c m in
    if m s == 0 then ok s else if m s == c then ok s else rest

unfoldable pub memset : ℕ → ℕ → ℕ → Memory → Memory
memset p c zero m = m
memset p c (suc n) m = memset (p + 1) c n (store m p c)

-- `*d ++ = *s ++`, n times
unfoldable pub copy_up : ℕ → ℕ → ℕ → Memory → Memory
copy_up d s zero m = m
copy_up d s (suc n) m = copy_up (d + 1) (s + 1) n (store m d (m s))

-- `*-- d = *-- s`, n times
unfoldable pub copy_down : ℕ → ℕ → ℕ → Memory → Memory
copy_down d s zero m = m
copy_down d s (suc n) m = copy_down (d - 1) (s - 1) n (store m (d - 1) (m (s - 1)))

unfoldable pub memmove : ℕ → ℕ → ℕ → Memory → Memory
unfolding copy_up copy_down
memmove dst src n m =
    if ltb src dst && ltb dst (src + n)
    then copy_down (dst + n) (src + n) n m
    else copy_up dst src n m

unfoldable pub memcpy : ℕ → ℕ → ℕ → Memory → Memory
memcpy dst src n m = copy_up dst src n m

unfoldable pub memcmp : ℕ → ℕ → ℕ → Memory → ℤ
memcmp v₁ v₂ zero m = pos 0
memcmp v₁ v₂ (suc n) m =
    let rest = memcmp (v₁ + 1) (v₂ + 1) n m in if m v₁ == m v₂ then rest else sub_ℕ (m v₁) (m v₂)
