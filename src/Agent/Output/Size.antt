-- ===== src/Agent/Output/Size.antt =====
-- What is exported fits the limit.
use strange_claw.Prelude.{
  ℕ, ◌+◌, ◌≤◌, ◌≡◌, refl, ltb, Bool, true, false, not, some, List, [], ◌∷◌, ◌++◌, length, All, ◌⊎◌,
  inl, inr, arith, if◌then◌else◌,
}
use strange_claw.Text.{Text}
use strange_claw.Agent.Run.{OutputFile, Runtime}
use strange_claw.Agent.Output.{Exported, collect_from, collect_output_files}

abbrev pub total_size : List Exported → ℕ
total_size [] = 0
total_size (f ∷ fs) = length f.content + total_size fs

total_size-append : (fs gs : List Exported) → total_size (fs ++ gs) ≡ total_size fs + total_size gs
total_size-append [] gs = omega arith
total_size-append (f ∷ fs) gs = omega (arith, total_size-append fs gs)

-- A file is as long as it was when its size was asked.
abbrev pub Stable : OutputFile → Type 0
Stable f = length f.content ≡ f.size

abbrev Fits : ℕ → List Exported ⊎ Text → Type 0
Fits limit (inl files) = total_size files ≤ limit
Fits limit (inr e) = Unit

Fits-if :
    (limit : ℕ) (b : Bool) (x y : List Exported ⊎ Text)
    → (b ≡ true → Fits limit x)
    → (b ≡ false → Fits limit y)
    → Fits limit (if b then x else y)
Fits-if limit true x y f g = f refl
Fits-if limit false x y f g = g refl

module _ {W : Type 0} (rt : Runtime W) where
  collect_from-Fits :
      (total : ℕ) (files : List Exported) (entries : List OutputFile)
      → All Stable entries
      → total ≡ total_size files
      → total ≤ rt.max_output_total_bytes
      → Fits rt.max_output_total_bytes (collect_from rt total files entries)
  unfolding collect_from
  collect_from-Fits total files [] st e h = omega arith
  collect_from-Fits total files (f ∷ fs) st e h =
      Fits-if _ (not f.is_regular) _ _ (λ _. collect_from-Fits total files fs st.1 e h)
        λ _.
          Fits-if _ (not f.inside) _ _ (λ _. tt)
            λ _.
              Fits-if _ (ltb rt.max_output_total_bytes f.size) _ _ (λ _. tt)
                λ _.
                  Fits-if _ (ltb rt.max_output_total_bytes (total + f.size)) _ _ (λ _. tt)
                    λ fits.
                      collect_from-Fits (total + length f.content) _ fs st.1
                        (omega (
                          arith,
                          total_size-append files
                              (record { path = f.rel_path; content = f.content } ∷ []),
                        ))
                        (ground (arith, st.0))

  -- If no file changes its length while it is read, then the contents that go into a done event have at
  -- most `max_output_total_bytes` bytes in all.
  pub collect_output_files-le :
      (entries : List OutputFile) (files : List Exported)
      → All Stable entries
      → collect_output_files rt (some entries) ≡ inl files
      → total_size files ≤ rt.max_output_total_bytes
  unfolding collect_output_files
  collect_output_files-le entries files st e =
      let fits = collect_from-Fits 0 [] entries st refl (omega arith) in rw e at fits
