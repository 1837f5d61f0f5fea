-- ===== src/Lua/Balance.antt =====
-- What the calls of src/slam_lua.c leave on Lua's stack. What Lua's manual says of each function's
-- effect on the stack is a hypothesis.
use slam.Base.{
  ℕ, zero, suc, ◌+◌, ◌≤◌, ℤ, negsuc, ◌≡◌, refl, ◌∙◌, ap, Bool, true, false, inl, inr, Bool-cases,
  Option, none, some, List, [], ◌∷◌, ◌⊎◌, ◌++◌, length, length-append, length-take, take, drop,
  arith, if◌then◌else◌,
}
use slam.Lua.Api.{Lua, Text, text, top, is_function, is_boolean}
use slam.Lua.Value.{LuaValue, set_boolean, set_string}
use slam.Lua.{pcall, put_traceback, drop_error, take_value, fetch, has_traceback, copy_number}

-- What the manual says of each function's effect on the stack: the values, the topmost first.
pub record IsLua {L F C : Type 0} (V : Type 0) (lua : Lua L F C) : Type 0 where
  pub stack : L → List V
  pub global : L → Text → V
  -- the one value that a call leaves: the function's result or the error
  pub outcome : L → ℕ → ℤ → V
  pub chunk : L → Text → V
  pub integer : ℤ → V
  pub pop : (l : L) (n : ℕ) → n ≤ length (stack l) → stack (lua.pop l n) ≡ drop n (stack l)
  pub get_global : (l : L) (name : Text) → stack (lua.get_global l name) ≡ global l name ∷ stack l
  pub insert :
      (l : L) (n : ℕ) (v : V) (vs : List V)
      → stack l ≡ v ∷ vs
      → n ≤ length vs
      → stack (lua.insert l (negsuc n)) ≡ take n vs ++ (v ∷ drop n vs)
  pub call :
      (l : L) (args : ℕ) (traceback : ℤ)
      → args + 1 ≤ length (stack l)
      → stack (lua.pcall l args 1 traceback).1
        ≡ outcome l args traceback ∷ drop (args + 1) (stack l)
  -- A conversion changes no place but the topmost.
  pub to_string :
      (l : L) (v : V) (vs : List V)
      → stack l ≡ v ∷ vs
      → (v' : V) × (stack (lua.to_string l top).1 ≡ v' ∷ vs)
  pub load_string : (l : L) (s : Text) → stack (lua.load_string l s).1 ≡ chunk l s ∷ stack l
  pub text : Text → V
  -- the value at a place, and the one that a table has for a key
  pub at : L → ℤ → V
  pub entry : L → V → V
  pub push_string : (l : L) (s : Text) → stack (lua.push_string l s) ≡ text s ∷ stack l
  pub push_value : (l : L) (place : ℤ) → stack (lua.push_value l place) ≡ at l place ∷ stack l
  pub get_table :
      (l : L) (key : V) (vs : List V)
      → stack l ≡ key ∷ vs
      → stack (lua.get_table l lua.registry) ≡ entry l key ∷ vs
  pub push_integer : (l : L) (n : ℤ) → stack (lua.push_integer l n) ≡ integer n ∷ stack l

drop_past : {V : Type 0} (n : ℕ) (vs ws : List V) → n ≤ length vs → drop n (take n vs ++ ws) ≡ ws
drop_past zero vs ws h = refl
drop_past (suc n) [] ws h = absurd (omega arith)
drop_past (suc n) (v ∷ vs) ws h = drop_past n vs ws (omega arith)

module _ {L F C V : Type 0} (lua : Lua L F C) (i : IsLua V lua) where
  -- Above the given values stand one, and the handler below it if there is one.
  abbrev Above : L → ℤ → List V → Type 0
  Above l traceback rest =
      (v : V) × (((has_traceback traceback ≡ true) × (g : V) × (i.stack l ≡ v ∷ (g ∷ rest)))
        ⊎ ((has_traceback traceback ≡ false) × (i.stack l ≡ v ∷ rest)))

  pop_one : (l : L) (v : V) (vs : List V) → i.stack l ≡ v ∷ vs → i.stack (lua.pop l 1) ≡ vs
  pop_one l v vs e = i.pop l 1 (omega (arith, ap length e)) ∙ ap (drop 1) e

  pop_two : (l : L) (v w : V) (vs : List V) → i.stack l ≡ v ∷ (w ∷ vs) → i.stack (lua.pop l 2) ≡ vs
  pop_two l v w vs e = i.pop l 2 (omega (arith, ap length e)) ∙ ap (drop 2) e

  drop_error_lem :
      (l : L) (traceback : ℤ) (rest : List V)
      → Above l traceback rest
      → i.stack (drop_error lua l traceback) ≡ rest
  unfolding drop_error
  drop_error_lem l traceback rest (v, inl (t, g, e)) = rw t (pop_two l v g rest e)
  drop_error_lem l traceback rest (v, inr (t, e)) =
      let (v', e') = i.to_string l v rest e in rw t (pop_one _ v' rest e')

  abbrev Tops : List V → LuaValue F × L → Type 0
  Tops vs (lvalue, l) = (v : V) × (i.stack l ≡ v ∷ vs)

  Tops-if :
      (b : Bool) (vs : List V) (x y : LuaValue F × L)
      → Tops vs x
      → Tops vs y
      → Tops vs (if b then x else y)
  Tops-if true vs x y h k = h
  Tops-if false vs x y h k = k

  fetch_lem :
      (l : L) (lvalue : LuaValue F) (v : V) (vs : List V)
      → i.stack l ≡ v ∷ vs
      → Tops vs (fetch lua l lvalue)
  unfolding fetch
  fetch_lem l lvalue v vs e =
      let (text', l') = lua.to_string l top in
      let converted = if lua.is_string l top then (set_string lvalue text', l') else (lvalue, l) in
      let counted = if lua.is_number l top then (copy_number lua l top lvalue, l) else converted in
      Tops-if (is_boolean lua l top) vs (set_boolean lvalue (lua.to_boolean l top), l) counted
        (v, e)
        (Tops-if (lua.is_number l top) vs (copy_number lua l top lvalue, l) converted (v, e)
          (Tops-if (lua.is_string l top) vs (set_string lvalue text', l') (lvalue, l)
            (i.to_string l v vs e) (v, e)))

  put_traceback_lem :
      (l : L) (args : ℕ)
      → args + 1 ≤ length (i.stack l)
      → ((has_traceback (put_traceback lua l args).0 ≡ true)
          × (g : V) × (i.stack (put_traceback lua l args).1
              ≡ take (args + 1) (i.stack l) ++ (g ∷ drop (args + 1) (i.stack l))))
        ⊎ ((has_traceback (put_traceback lua l args).0 ≡ false)
            × (i.stack (put_traceback lua l args).1 ≡ i.stack l))
  unfolding put_traceback
  put_traceback_lem l args enough =
      let name = text "__G_TRACKBACK__" in
      let g = i.global l name in
      let e = i.get_global l name in
      elim (Bool-cases (is_function lua (lua.get_global l name) top)) [
        | inl b ↦ inl (rw b refl, g, rw b (i.insert _ (args + 1) g (i.stack l) e enough))
        | inr b ↦ inr (rw b refl, rw b (pop_one _ g (i.stack l) e))
      ]

  take_value_lem :
      (l : L) (traceback : ℤ) (lvalue : Option (LuaValue F)) (rest : List V)
      → Above l traceback rest
      → i.stack (take_value lua l traceback lvalue).1 ≡ rest
  unfolding take_value
  take_value_lem l traceback none rest (v, inl (t, g, e)) =
      rw t (pop_one _ g rest (pop_one l v (g ∷ rest) e))
  take_value_lem l traceback none rest (v, inr (t, e)) = rw t (pop_one l v rest e)
  take_value_lem l traceback (some lvalue) rest (v, inl (t, g, e)) =
      let (v', e') = fetch_lem l lvalue v (g ∷ rest) e in
      rw t (pop_one _ g rest (pop_one _ v' (g ∷ rest) e'))
  take_value_lem l traceback (some lvalue) rest (v, inr (t, e)) =
      let (v', e') = fetch_lem l lvalue v rest e in rw t (pop_one _ v' rest e')

  after_call :
      (l : L) (args : ℕ) (traceback : ℤ) (l1 : L)
      → args + 1 ≤ length (i.stack l)
      → (((has_traceback traceback ≡ true)
            × (g : V) × (i.stack l1
                ≡ take (args + 1) (i.stack l) ++ (g ∷ drop (args + 1) (i.stack l))))
          ⊎ ((has_traceback traceback ≡ false) × (i.stack l1 ≡ i.stack l)))
      → Above (lua.pcall l1 args 1 traceback).1 traceback (drop (args + 1) (i.stack l))
  after_call l args traceback l1 enough (inl (t, g, e)) = (
    i.outcome l1 args traceback,
    inl (
      t,
      g,
      i.call l1 args traceback (
            omega (
              arith,
              ap length e,
              length-append (take (args + 1) (i.stack l)) (g ∷ drop (args + 1) (i.stack l)),
              length-take (args + 1) (i.stack l),
            ))
          ∙ ap (◌∷◌ (i.outcome l1 args traceback))
              (ap (drop (args + 1)) e ∙ drop_past (args + 1) (i.stack l) _ enough),
    ),
  )
  after_call l args traceback l1 enough (inr (t, e)) = (
    i.outcome l1 args traceback,
    inr (
      t,
      i.call l1 args traceback (omega (arith, ap length e, enough))
          ∙ ap (◌∷◌ (i.outcome l1 args traceback)) (ap (drop (args + 1)) e),
    ),
  )

  -- With a function and its arguments on the stack, or any other value in place of the function,
  -- `slam_lua_pcall` takes exactly these from the stack and leaves nothing, on every branch: when the
  -- value is no function, when the call fails and when it returns, with an error handler of the script
  -- and without, and whether or not the caller wants the result.
  pub pcall_lem :
      (l : L) (args : ℕ) (lvalue : Option (LuaValue F))
      → args + 1 ≤ length (i.stack l)
      → i.stack (pcall lua l args lvalue).2 ≡ drop (args + 1) (i.stack l)
  unfolding pcall
  pcall_lem l args lvalue enough =
      let (traceback, l1) = put_traceback lua l args in
      let (error, l2) = lua.pcall l1 args 1 traceback in
      let above = after_call l args traceback l1 enough (put_traceback_lem l args enough) in
      elim (Bool-cases (is_function lua l (negsuc args))) [
        | inr b ↦ rw b (i.pop l (args + 1) enough)
        | inl b ↦ elim (Bool-cases error) [
          | inl failed ↦ rw (b, failed) (drop_error_lem l2 traceback _ above)
          | inr fine ↦ rw (b, fine) (take_value_lem l2 traceback lvalue _ above)
        ]
      ]
