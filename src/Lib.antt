-- ===== src/Lib.antt =====
-- Private vector search: a server ranks encrypted embeddings for a client. This library models
-- the scheme of Braverman and Newman (the crate scorer-bntm) from the field arithmetic to the
-- flat scorer, the store of device-resident clusters that the GPU scorers share
-- (scorer-gpu-common), the header of the disk caches (scorer-core), the inverted-file index that
-- the scorers search (ivf-index), and the private retrieval of the Tiptoe baseline
-- (scorer-tiptoe), and proves that they compute what they promise.
--
-- The parts. A client quantises its embeddings to integers modulo p = 2^61 - 1, hides the matrix
-- M as M + HL^T + S, and uploads it. For a query it sends v + LG + T; the server multiplies; the
-- client subtracts what the masks added, lifts the scores to signed integers and ranks them. A
-- GPU scorer keeps encrypted clusters on the device within a budget and evicts the least
-- recently used. The index groups the vectors by the nearest of k centroids, which k-means
-- finds; a query visits the nearest clusters only. Tiptoe lays the clusters side by side in one
-- matrix, encrypts the query in the columns of its cluster under Regev's scheme, and reads the
-- scores of that cluster from the product.
--
-- The files.
--   Prelude: lists, counted loops, finite sums, bits, machine words, integers and results. A
--     panic is `none`; an error that the code returns is `err`. rayon's parallel loops give the
--     list that the sequential loop gives.
--   Rng, Float, Float32, Sorting: what the program uses of the crate rand, of f32 and f64, and
--     of the standard library's unstable sort, as parameters. Sorting/Insertion has a sort with
--     the documented behaviour, Sorting/TopK what its first elements are, and Sorting/Order what
--     a permutation keeps.
--   Bntm/Params, Bntm/Field: scorer-bntm/src/params.rs and the arithmetic of
--     scorer-bntm/src/crypto.rs (mersenne_reduce, add_mod, sub_mod, mul_mod). A u64 or u128
--     keeps its wrap-around.
--   Bntm/Matvec, Bntm/Avx512, Bntm/Kernel: the scalar, transposed, vectorised and batched
--     products. A 512-bit register is a function from its eight lanes. The choice of the kernel
--     by the build is the argument `avx512f`.
--   Bntm/Sparse, Bntm/Sampling, Bntm/Keys: sparse vectors and the products with them, the
--     samplers, and the shapes of the key material. `sparse_lookup` searches by the binary
--     search of the standard library, which is written out beside it. An index is stored as a
--     u32, and keeps that wrap-around.
--   Bntm/Cluster, Bntm/Query, Bntm/Decode: encrypt_cluster, encode_query, decode_scores and
--     verify_response.
--   Bntm/Quantise, Bntm/Scorer: quantise_vector and fp_to_signed; upload_cluster and score of
--     scorer-bntm/src/lib.rs on the CPU. A panic inside spawn_blocking is the error
--     `spawn_panic`. The seeds that sample_h_seed draws are arguments.
--   Core/Cache: scorer-core/src/cache.rs. A file is the list of its bytes; a failing read is a
--     refusal, as in the code, and `write_all` is an argument.
--   Gpu/Store: LruInner and get_or_upload of scorer-gpu-common/src/store.rs. The hash map is an
--     association list, the counters are part of the state, and the answers of the device are
--     arguments. The two critical sections are definitions of their own.
--   Ivf/Index, Ivf/Codec: IvfIndex of ivf-index/src/ivf.rs and its file. A loader takes the
--     bytes of the file; a file that cannot be opened is not modelled.
--   Ivf/Probe, Ivf/Build, Ivf/Batch: probe, build_index, probe_batch and probe_batch_split of
--     the same file. The distance is an argument of them, `l2_f32`, which returns on all
--     vectors, as the code of Ivf/Distance does on vectors of one length.
--   Ivf/Kmeans, Ivf/Distance: ivf-index/src/kmeans.rs and ivf-index/src/distance.rs. The sum of
--     rayon is the argument `sum_par`, since the order of its additions is open. `Lanes` is what
--     l2_f32_simd uses of the crate wide: 16 lanes, `mul_add` in each, and their sum. The order
--     of the operations is kept, and nothing is assumed of the arithmetic. l2_f32 returns an
--     option, since the vectorised kernel panics on vectors of different lengths.
--   Tiptoe/Encoding: scorer-tiptoe/src/encoding.rs, with the arithmetic on f32 as a parameter;
--     encode_vector is with the clusters.
--   Tiptoe/Lwe: scorer-tiptoe/src/pir/lwe.rs. What sample_gauss draws is an argument, as a
--     64-bit word.
--   Tiptoe/SimplePir: scorer-tiptoe/src/pir/simplepir.rs. `Seeks` says of the generator that
--     seeking to word 2 k of a fresh stream is drawing k numbers of 64 bits.
--   Tiptoe/Clusters: scorer-tiptoe/src/cluster.rs and scorer-tiptoe/src/routing.rs.
--   Tiptoe/Upload: upload_cluster of scorer-tiptoe/src/lib.rs with its two caches;
--     Tiptoe/Upload/Cache has the file. What the upload uses of the second encryption, `bfv_fp`
--     and `decompose_hint`, are arguments, and its state is not part of an entry. The temporary
--     file and its renaming are one step.
--   Tiptoe/Ranking: score_query of scorer-tiptoe/src/ranking.rs. The secret and the noise that
--     the generator gives are arguments, and so is `bfv_h_s`, the steps 6 and 7 that send H · s
--     under a second encryption.
--   Ivf/Toy, Tiptoe/Toy: small numbers, a sort and a generator for the tests, in which the
--     assumptions hold.
--
-- Fuel. The only loop without a bound is the rejection sampling of sample_fp. It has fuel, and
-- `Accepts` says that from every state of the generator one of that many draws is accepted: a
-- draw is rejected only if its low 61 bits are all ones. The searches and the eviction recurse
-- on what they consume, and the rounds of k-means on max_iter.
--
-- Not modelled: the branches behind the feature gpu of scorer-bntm, the CUDA kernels, the
-- secrecy of the schemes, the rounding of floats, timings, a failed allocation, the homomorphic
-- encryption that compresses the hint of Tiptoe, and the crates scorer-emvp, scorer-sap,
-- scorer-plaintext and eval-harness.
pub mod Bntm
pub mod Core
pub mod Float
pub mod Float32
pub mod Gpu
pub mod Ivf
pub mod Prelude
pub mod Rng
pub mod Sorting
pub mod Tiptoe
