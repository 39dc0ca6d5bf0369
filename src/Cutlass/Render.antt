-- ===== src/Cutlass/Render.antt =====
-- crates/atomr-accel-cutlass/src/kernels/mod.rs: the sources that are made for the requests.
use atomr_accel.Common.{
  ℕ, zero, suc, ◌+◌, ◌/◌, ◌%◌, Bool, true, false, [], ◌∷◌, ◌++◌, Text, text, decimal, ltb,
  if◌then◌else◌, length,
}
use atomr_accel.Cutlass.Dtype.{
  SmArch, sm80, sm86, sm89, sm90, sm90a, sm100, sm120, as_cutlass_type, dtype_name, arch_name,
}
use atomr_accel.Cutlass.Gemm.{
  ConvKind, cutlass_layout, layout_name, epilogue_name, grouped_name, conv_layout_name, kind_name,
  cutlass_kernel,
}
use atomr_accel.Cutlass.Key.{PlanKey, le_bytes}
use atomr_accel.Cutlass.Requests.{
  GemmRequest, GroupedGemmRequest, ConvRequest, Dispatch, gemm, grouped_gemm, conv, plan_key,
}

abbrev hex_digit : ℕ → ℕ
hex_digit d = if ltb d 10 then b'0' + d else 87 + d

-- `{:0w$x}` of a number below 16 ^ w, before what is done already.
unfoldable pub hex : ℕ → ℕ → Text → Text
hex zero n done = done
hex (suc w) n done = hex w (n / 16) (hex_digit (n % 16) ∷ done)

-- What the derived `Hash` writes: the byte, the length of the array, and its words.
unfoldable pub key_suffix : (Text → ℕ) → PlanKey → Text
unfolding hex le_bytes
key_suffix sip key =
    hex 16
      (sip (
        key.template_id ∷ le_bytes 8 3
        ++ le_bytes 8 key.payload_0
        ++ le_bytes 8 key.payload_1
        ++ le_bytes 8 key.payload_2))
      []

abbrev line : Text → Text
line s = s ++ 10 ∷ []

unfoldable pub header_preamble : Text
unfolding text
header_preamble =
    10 ∷ line (text "#include <cutlass/cutlass.h>")
    ++ line (text "#include <cutlass/numeric_types.h>")
    ++ line (text "#include <cutlass/gemm/device/gemm_universal.h>")
    ++ line (text "#include <cutlass/conv/device/implicit_gemm_convolution.h>")

unfoldable pub sm_arch_num : SmArch → ℕ
sm_arch_num sm80 = 80
sm_arch_num sm86 = 86
sm_arch_num sm89 = 89
sm_arch_num sm90 = 90
sm_arch_num sm90a = 90
sm_arch_num sm100 = 100
sm_arch_num sm120 = 120

unfoldable pub bool_name : Bool → Text
unfolding text
bool_name true = text "true"
bool_name false = text "false"

-- `extern "C" __global__ void`, before the name of the kernel.
abbrev extern_c : Text
extern_c = text "extern \"C\" __global__ void "

unfoldable pub gemm_source : GemmRequest → Text → Text
unfolding header_preamble text decimal layout_name dtype_name arch_name bool_name as_cutlass_type
    cutlass_layout sm_arch_num epilogue_name
gemm_source req kname =
    header_preamble
    ++ line (text "// atomr-accel-cutlass: GEMM template instantiation")
    ++ line (
        text "//   shape=("
        ++ decimal req.shape.m
        ++ text ", "
        ++ decimal req.shape.n
        ++ text ", "
        ++ decimal req.shape.k
        ++ text ") layout=("
        ++ layout_name req.layout_a
        ++ text ", "
        ++ layout_name req.layout_b
        ++ text ", "
        ++ layout_name req.layout_c
        ++ text ") dtype="
        ++ dtype_name req.dtype
        ++ text " accum="
        ++ dtype_name req.accum_dtype
        ++ text " out="
        ++ dtype_name req.output_dtype
        ++ text " arch="
        ++ arch_name req.arch
        ++ text " persistent="
        ++ bool_name req.persistent)
    ++ line (text "using AtomrGemm = cutlass::gemm::device::GemmUniversal<")
    ++ line (as_cutlass_type req.dtype ++ text ", " ++ cutlass_layout req.layout_a ++ text ",")
    ++ line (as_cutlass_type req.dtype ++ text ", " ++ cutlass_layout req.layout_b ++ text ",")
    ++ line
        (as_cutlass_type req.output_dtype ++ text ", " ++ cutlass_layout req.layout_c ++ text ",")
    ++ line (as_cutlass_type req.accum_dtype ++ text ",")
    ++ line (text "cutlass::arch::OpClassTensorOp,")
    ++ line (text "cutlass::arch::Sm" ++ decimal (sm_arch_num req.arch) ++ text ">;")
    ++ line (text "// epilogue: " ++ epilogue_name req.epilogue)
    ++ line (extern_c ++ kname ++ text "(")
    ++ line (text "    AtomrGemm::Arguments args)")
    ++ line (text "{")
    ++ line (text "    // CUTLASS launches via a host-side adapter; the kernel body")
    ++ line (text "    // is generated by CUTLASS itself. This stub holds the")
    ++ line (text "    // device-side entry symbol so NVRTC's name-expression lookup")
    ++ line (text "    // resolves cleanly.")
    ++ line (text "    (void)args;")
    ++ line (text "}")

unfoldable pub grouped_source : GroupedGemmRequest → Text → Text
unfolding header_preamble text decimal dtype_name arch_name as_cutlass_type cutlass_layout
    grouped_name
grouped_source req kname =
    header_preamble
    ++ line (text "// atomr-accel-cutlass: Grouped GEMM template instantiation")
    ++ line (
        text "//   group_count="
        ++ decimal (length req.shape)
        ++ text " layout="
        ++ grouped_name req.grouped_layout
        ++ text " dtype="
        ++ dtype_name req.dtype
        ++ text " arch="
        ++ arch_name req.arch)
    ++ line (
        text "using AtomrGroupedGemm = cutlass::gemm::device::GemmUniversal"
        ++ text " /* grouped variant */<")
    ++ line (as_cutlass_type req.dtype ++ text ", " ++ cutlass_layout req.layout_a ++ text ",")
    ++ line (as_cutlass_type req.dtype ++ text ", " ++ cutlass_layout req.layout_b ++ text ",")
    ++ line
        (as_cutlass_type req.output_dtype ++ text ", " ++ cutlass_layout req.layout_c ++ text ",")
    ++ line (as_cutlass_type req.accum_dtype ++ text ">;")
    ++ line (text "// kernel: GroupedGemm symbol is generated by CUTLASS host-side adapter.")
    ++ line (extern_c ++ kname ++ text "(int) {}")

unfoldable pub conv_source : ConvKind → ConvRequest → Text → Text
unfolding header_preamble text decimal dtype_name arch_name kind_name conv_layout_name
    cutlass_kernel
conv_source kind req kname =
    let shape = req.shape in
    header_preamble
    ++ line (text "// atomr-accel-cutlass: Implicit-GEMM convolution")
    ++ line (
        text "//   kind="
        ++ kind_name kind
        ++ text " shape=N"
        ++ decimal shape.n
        ++ text "H"
        ++ decimal shape.h
        ++ text "W"
        ++ decimal shape.w
        ++ text "C"
        ++ decimal shape.c
        ++ text "K"
        ++ decimal shape.k
        ++ text "R"
        ++ decimal shape.r
        ++ text "S"
        ++ decimal shape.s
        ++ text " layout="
        ++ conv_layout_name req.layout
        ++ text " dtype="
        ++ dtype_name req.dtype
        ++ text " accum="
        ++ dtype_name req.accum_dtype
        ++ text " out="
        ++ dtype_name req.output_dtype
        ++ text " arch="
        ++ arch_name req.arch)
    ++ line (
        text "using AtomrConv = "
        ++ cutlass_kernel kind
        ++ text "</* simplified template arg list */>;")
    ++ line (text "// CUTLASS implicit-GEMM convolution; ImplicitGemmConvolution path.")
    ++ line (extern_c ++ kname ++ text "(int) {}")

unfoldable pub kernel_name : (Text → ℕ) → Dispatch → Text
unfolding text key_suffix plan_key kind_name
kernel_name sip (gemm r) = text "atomr_cutlass_gemm_" ++ key_suffix sip (plan_key sip (gemm r))
kernel_name sip (grouped_gemm r) =
    text "atomr_cutlass_grouped_gemm_" ++ key_suffix sip (plan_key sip (grouped_gemm r))
kernel_name sip (conv kind r) =
    text "atomr_cutlass_conv_"
    ++ kind_name kind
    ++ text "_"
    ++ key_suffix sip (plan_key sip (conv kind r))

abbrev pub source : Dispatch → Text → Text
source (gemm r) = gemm_source r
source (grouped_gemm r) = grouped_source r
source (conv kind r) = conv_source kind r

-- The source and the name of the kernel.
unfoldable pub render_cu : (Text → ℕ) → Dispatch → Text × Text
unfolding kernel_name gemm_source grouped_source conv_source
render_cu sip d = (source d (kernel_name sip d), kernel_name sip d)
