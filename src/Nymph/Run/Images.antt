-- ===== src/Nymph/Run/Images.antt =====
-- The cache of images of srv/nymph/server.go.
use konk.Base.{
  ◌≡◌, refl, ◌∙◌, ap, inl, inr, String, some, ok, int_eq, string_eq, eq_self, arith, Result-cases,
  Option-cases,
}
use konk.Base.Dict.{lookup, lookup-insert}
use konk.Container.Runtime.{Runtime}
use konk.Nymph.Run.{Host, Server, get_image}

module _ (R : Runtime) (H : Host R) where
  get_image_kept :
      (path : String) (n : Server R H) (image : H.Image)
      → (get_image R H path n).0 ≡ ok image
      → lookup (H.image_name path) (get_image R H path n).1.images ≡ some image
  unfolding get_image
  get_image_kept path n image e = elim (Option-cases (lookup (H.image_name path) n.images)) [
    | inr (kept, f) ↦ ground arith
    | inl f ↦ elim (Result-cases (H.new_image path n.world).0) [
      | inr (x, g) ↦ ground arith
      | inl (new, g) ↦ ground (
        arith,
        lookup-insert (H.image_name path) (H.image_name path) new n.images,
        eq_self (H.image_name path),
      )
    ]
  ]

  cached :
      (path : String) (n : Server R H) (image : H.Image)
      → lookup (H.image_name path) n.images ≡ some image
      → get_image R H path n ≡ (ok image, n)
  unfolding get_image
  cached path n image e = rw (e, get_image) refl

  -- An image that was opened is kept: opening one of the same name again gives it back and changes
  -- nothing, whatever is at that path by then.
  get_image_again :
      (path later : String) (n : Server R H) (image : H.Image)
      → (get_image R H path n).0 ≡ ok image
      → H.image_name later ≡ H.image_name path
      → let (_, n') = get_image R H path n in get_image R H later n' ≡ (ok image, n')
  get_image_again path later n image e same =
      let (_, n') = get_image R H path n in
      cached later n' image
        (ap (λ (k : String). lookup k n'.images) same ∙ get_image_kept path n image e)

  pub get_image_rest :
      (path : String) (n : Server R H)
      → let n' = (get_image R H path n).1 in
        (n'.containers ≡ n.containers) × (n'.net ≡ n.net) × (n'.hostname ≡ n.hostname)
  unfolding get_image
  get_image_rest path n = ground arith
